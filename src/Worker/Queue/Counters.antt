-- ===== src/Worker/Queue/Counters.antt =====
-- The counters of the `WorkQueue` of src/worker/queue.rs over a series of dispatches.
use nano_rs.Common.{
  ℕ, suc, ◌+◌, ◌*◌, ◌^◌, ◌%◌, ◌≡◌, refl, ap, subst, ◌∙◌, Bool, true, false, Option, List, [], ◌∷◌,
  Text, length, has_key, length-put, inl, inr, if◌then◌else◌, arith,
}
use nano_rs.Control.Defs.{Outcome, done, ◌>>=◌}
use nano_rs.Config.Checks.{VfsDiskConfig}
use nano_rs.App.Reload.{AppRegistry}
use nano_rs.Control.Plane
use nano_rs.Worker.Queue.{register_all}
use nano_rs.Worker.Queue.Pools.{
  World, WorkQueue, add_pool, empty_queue, hostnames_of, with_vfs_config, get_or_create_pool,
  set_pool, dispatch,
}
use nano_rs.Worker.Queue.Routing.{>>=-eq-done, get_or_create_pool-cases, dispatch-cases}

abbrev pub refusals : List Bool → ℕ
refusals [] = 0
refusals (accepted ∷ rest) = if accepted then refusals rest else suc (refusals rest)

-- The counters of a queue after some tasks, of which some were not sent.
pub record IsCounted (tasks dropped : ℕ) (q : WorkQueue) : Type 0 where
  pub submitted : q.stats.tasks_submitted ≡ tasks % 2 ^ 64
  pub completed : q.stats.tasks_completed ≡ 0
  pub refused : q.stats.tasks_dropped ≡ dropped % 2 ^ 64
  pub pools_made : q.stats.active_pools ≡ length q.pools % 2 ^ 32
  pub workers_made : q.stats.active_workers ≡ (length q.pools * q.workers_per_pool) % 2 ^ 32

one_more : (a b c n : ℕ) → a ≡ (b * n) % 2 ^ 32 → c ≡ b + 1 → (a + n) % 2 ^ 32 ≡ (c * n) % 2 ^ 32
one_more a b c n h e =
    let product : c * n ≡ b * n + n = ap (λ x. x * n) e ∙ omega arith in omega (arith, h, product)

recount :
    (t t' d d' : ℕ) (q q' : WorkQueue)
    → t ≡ t'
    → d ≡ d'
    → q ≡ q'
    → IsCounted t d q
    → IsCounted t' d' q'
recount t t' d d' q q' ht hd hq v =
    subst (λ x. IsCounted x d' q') ht
      (subst (λ x. IsCounted t x q') hd (subst (IsCounted t d) hq v))

refusals-cons :
    (accepted : Bool) (rest : List Bool) (dropped : ℕ)
    → (if accepted then dropped else suc dropped) + refusals rest
      ≡ dropped + refusals (accepted ∷ rest)
refusals-cons true rest dropped = refl
refusals-cons false rest dropped = omega arith

module _ (w : World) where
  abbrev pub run : List (Text × ℕ) → WorkQueue → Outcome (List Bool × WorkQueue)
  run [] q = done ([], q)
  run ((hostname, task) ∷ rest) q = dispatch w hostname task q >>= λ (accepted, q).
      run rest q >>= λ (results, q). done (accepted ∷ results, q)

  add_pool-IsCounted :
      (hostname : Text) (tasks dropped : ℕ) (q q' : WorkQueue)
      → IsCounted tasks dropped q
      → get_or_create_pool w hostname q ≡ done q'
      → IsCounted tasks dropped q'
  add_pool-IsCounted hostname tasks dropped q q' v e =
      elim (get_or_create_pool-cases w hostname q q' e) [
        | inl (_, same) ↦ subst (IsCounted tasks dropped) same v
        | inr (new, c, pool, _, made) ↦
            let longer : length (add_pool w hostname pool c q).pools ≡ length q.pools + 1 =
              length-put _ _ q.pools ∙ rw (new) (omega arith) in
            subst (IsCounted tasks dropped) made (record {
              submitted = v.submitted;
              completed = v.completed;
              refused = v.refused;
              pools_made = omega (arith, v.pools_made, longer);
              workers_made =
                  one_more _ (length q.pools) (length (add_pool w hostname pool c q).pools)
                    q.workers_per_pool v.workers_made longer;
            })
      ]

  dispatch-IsCounted :
      (hostname : Text) (task tasks dropped : ℕ) (q q' : WorkQueue) (accepted : Bool)
      → IsCounted tasks dropped q
      → dispatch w hostname task q ≡ done (accepted, q')
      → IsCounted (tasks + 1) (if accepted then dropped else suc dropped) q'
  dispatch-IsCounted hostname task tasks dropped q q' accepted v e =
      let (q1, pool, inner, made, there, same) = dispatch-cases w hostname task q q' accepted e in
      let v1 = add_pool-IsCounted hostname tasks dropped q q1 v made in
      let kept : length (set_pool w hostname pool inner q1).pools ≡ length q1.pools =
        length-put _ _ q1.pools ∙ rw (has_key, there) refl in
      subst (IsCounted (tasks + 1) (if accepted then dropped else suc dropped)) same (record {
        submitted = omega (arith, v1.submitted);
        completed = v1.completed;
        refused = dropped_one q1.stats.tasks_dropped v1.refused accepted;
        pools_made = rw (kept) v1.pools_made;
        workers_made = rw (kept) v1.workers_made;
      })
    where
      dropped_one :
          (d : ℕ)
          → d ≡ dropped % 2 ^ 64
          → (b : Bool)
          → (if b then d else (d + 1) % 2 ^ 64) ≡ (if b then dropped else suc dropped) % 2 ^ 64
      dropped_one d h true = h
      dropped_one d h false = omega (arith, h)

  run-IsCounted :
      (ts : List (Text × ℕ)) (tasks dropped : ℕ) (q q' : WorkQueue) (results : List Bool)
      → IsCounted tasks dropped q
      → run ts q ≡ done (results, q')
      → IsCounted (tasks + length ts) (dropped + refusals results) q'
  run-IsCounted [] tasks dropped q q' results v e =
      let none_left : ◌≡◌ {A = List Bool × WorkQueue} ([], q) (results, q') = cc e in
      recount tasks (tasks + 0) dropped (dropped + refusals results) q q' (omega arith)
        (omega (arith, ap (λ x. refusals x.0) none_left)) (ap (λ x. x.1) none_left) v
  run-IsCounted ((hostname, task) ∷ ts) tasks dropped q q' results v e =
      let ((accepted, q1), sent, e1) = >>=-eq-done (dispatch w hostname task q) _ e in
      let ((rest, q2), ran, e2) = >>=-eq-done (run ts q1) _ e1 in
      let both : ◌≡◌ {A = List Bool × WorkQueue} (accepted ∷ rest, q2) (results, q') = cc e2 in
      let v1 = dispatch-IsCounted hostname task tasks dropped q q1 accepted v sent in
      let v2 =
        run-IsCounted ts (tasks + 1) (if accepted then dropped else suc dropped) q1 q2 rest v1
          ran in
      recount (tasks + 1 + length ts) (tasks + suc (length ts))
        ((if accepted then dropped else suc dropped) + refusals rest) (dropped + refusals results)
        q2 q' (omega arith)
        (refusals-cons accepted rest dropped ∙ ap (λ x. dropped + refusals x.0) both)
        (ap (λ x. x.1) both) v2

  -- After a series of dispatches of a new queue, in which nothing panicked, the counters are the
  -- numbers of the tasks, of those that were not sent, of the pools, and of the workers of all
  -- pools, all modulo the size of their words; the number of completed tasks is 0.
  pub run-with_vfs_config :
      (workers : ℕ) (config : Option VfsDiskConfig) (registry : Option AppRegistry)
      (ts : List (Text × ℕ)) (q q' : WorkQueue) (results : List Bool)
      → with_vfs_config workers config registry ≡ done q
      → run ts q ≡ done (results, q')
      → IsCounted (length ts) (refusals results) q'
  unfolding with_vfs_config
  run-with_vfs_config workers config registry ts q q' results made ran =
      let (c, _, e) = >>=-eq-done Plane.new _ made in
      let (c', _, e') = >>=-eq-done (register_all c (hostnames_of registry)) _ e in
      let same : empty_queue workers config registry c' ≡ q = cc e' in
      let start : IsCounted 0 0 (empty_queue workers config registry c') = record {
        submitted = refl;
        completed = refl;
        refused = refl;
        pools_made = refl;
        workers_made = omega arith;
      } in
      let counted = run-IsCounted ts 0 0 q q' results (subst (IsCounted 0 0) same start) ran in
      recount (0 + length ts) (length ts) (0 + refusals results) (refusals results) q' q'
        (omega arith) (omega arith) refl counted

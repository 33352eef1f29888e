-- ===== src/Rotator/Refine.antt =====
-- The manager of rotator sessions behaves as the pool.
use android_device_casio_dtx.Base.{
  ℕ, ◌+◌, ◌-◌, ◌≤◌, ◌<◌, ◌≡◌, ◌∙◌, refl, sym, ap, subst, inl, inr, Option, none, some, List, [],
  ◌∷◌, ◌++◌, length, get_elem?, leb, arith, for_range, branch, for_range_keeps, length-append,
  update, get_elem?_snoc, List-cases, get_elem?-append_right,
}
use mathlib.Core.List.{append-nil, append_assoc}
use android_device_casio_dtx.Rotator.Manager.{
  Rotator, RotMgr, get_rotator, delete_rot, config_begin, config_done, get_next, clear,
  mark_unused_top, create_rot_mgr,
}
use android_device_casio_dtx.Rotator.Delete.{
  kept_entries, deleted_entries, take_drop, length-take, delete_rot-count, delete_rot-made,
}
use android_device_casio_dtx.Rotator.Pool.{
  Pool, Call, Outcome, before, and_then, empty_pool, with_answer, step, pool_step, lend, run,
  pool_run, IsLegal, AllLegal, Represents, take, drop, begin_call, next_call, done_call, clear_call,
  unused_call,
}

-- A legal call on a manager that lists a pool answers as the pool does, and lists the pool after it.
abbrev Simulates : Option (Option Rotator × RotMgr) → Option Rotator × Pool → Type 0
Simulates none q = ⊥
Simulates (some (a, n)) (b, q) = (a ≡ b) × Represents n q

module _ (v : ℕ) (m : RotMgr) (p : Pool) (r : Represents m p) where
  begin-Simulates : Simulates (step v begin_call m) (pool_step v begin_call p)
  unfolding step pool_step config_begin
  begin-Simulates = (
    refl,
    record { entries = r.entries; count = refl; room = r.room; objects = r.objects; gone = r.gone },
  )

  done-Simulates : Simulates (step v done_call m) (pool_step v done_call p)
  unfolding step pool_step config_done
  done-Simulates =
      let len = length-append (p.used) (p.idle) in
      let n = 4 - length p.used in
      let loop : ℕ → RotMgr = λ from. for_range (4 - from) from delete_rot m in
      let fits : length p.idle ≤ n = omega (arith, r.room, len) in
      branch (leb 2147483648 m.use_count) (λ o. Simulates (with_answer o) (pool_step v done_call p))
        none (some (loop m.use_count)) (λ big. absurd (ground (arith, r.count, r.room, len)))
        λ small. (
          refl,
          record {
            entries = λ i.
                subst (λ from. (loop from).rot i ≡ get_elem? (p.used ++ []) i) (sym r.count)
                  (kept_entries p.used p.idle n m fits r.entries i);
            count =
                for_range_keeps (λ (k : RotMgr). k.use_count) delete_rot delete_rot-count
                  (4 - m.use_count) m.use_count m
                ∙ r.count;
            room = omega (arith, r.room, len, length-append (p.used) []);
            objects =
                for_range_keeps (λ (k : RotMgr). k.made) delete_rot delete_rot-made
                  (4 - m.use_count) m.use_count m
                ∙ r.objects;
            gone =
                subst (λ from. (loop from).deleted ≡ m.deleted ++ p.idle) (sym r.count)
                  (deleted_entries p.used p.idle n m fits r.entries)
                ∙ ap (λ ds. ds ++ p.idle) r.gone;
          },
        )

  clear-Simulates : Simulates (step v clear_call m) (pool_step v clear_call p)
  unfolding step pool_step clear
  clear-Simulates = (
    refl,
    record {
      entries = kept_entries [] (p.used ++ p.idle) 4 m r.room r.entries;
      count = refl;
      room = omega arith;
      objects =
          for_range_keeps (λ (k : RotMgr). k.made) delete_rot delete_rot-made 4 0 m ∙ r.objects;
      gone =
          deleted_entries [] (p.used ++ p.idle) 4 m r.room r.entries
          ∙ ap (λ ds. ds ++ (p.used ++ p.idle)) r.gone;
    },
  )

  unused-Simulates :
      (count : ℕ)
      → count ≤ length p.used
      → Simulates (step v (unused_call count) m) (pool_step v (unused_call count) p)
  unfolding step pool_step mark_unused_top
  unused-Simulates count h =
      let keep = length p.used - count in
      let whole : take keep p.used ++ (drop keep p.used ++ p.idle) ≡ p.used ++ p.idle =
        sym (append_assoc (take keep p.used) (drop keep p.used) p.idle)
        ∙ ap (λ us. us ++ p.idle) (take_drop keep p.used) in
      (
        refl,
        record {
          entries = λ i. r.entries i ∙ ap (λ us. get_elem? us i) (sym whole);
          count = ground (
            arith,
            r.count,
            r.room,
            length-append (p.used) (p.idle),
            length-take keep (p.used) (omega arith),
          );
          room = subst (λ us. length us ≤ 4) (sym whole) r.room;
          objects = r.objects;
          gone = r.gone;
        },
      )

  top : m.rot m.use_count ≡ get_elem? p.idle 0
  top =
      r.entries m.use_count
      ∙ get_elem?-append_right (p.used) (p.idle) 0 m.use_count (ground (arith, r.count))

  -- The same facts about a pool given by its parts.
  listed : (ws : List Rotator) → p.used ++ p.idle ≡ ws → (i : ℕ) → m.rot i ≡ get_elem? ws i
  listed ws e i = r.entries i ∙ ap (λ us. get_elem? us i) e

  next_full : 4 ≤ m.use_count → Simulates (some (get_next v m)) (none, p)
  unfolding get_next
  next_full h = subst (λ a. Simulates (some a) (none, p)) (sym (e h)) (refl, r)
    where
      e : 4 ≤ m.use_count → get_next v m ≡ (none, m)
      e h = ground arith

  next_kept :
      (x : Rotator) (rest : List Rotator)
      → m.use_count < 4
      → p.idle ≡ x ∷ rest
      → Simulates (some (get_next v m)) (some x, record p { used = p.used ++ x ∷ []; idle = rest })
  unfolding get_next
  next_kept x rest h e =
      let answer : get_next v m ≡ (some x, record m { use_count = m.use_count + 1 }) =
        ground (arith, top, e) in
      let whole : p.used ++ p.idle ≡ (p.used ++ x ∷ []) ++ rest =
        ap (λ is. p.used ++ is) e ∙ sym (append_assoc (p.used) (x ∷ []) rest) in
      subst (λ a. Simulates (some a) (some x, record p { used = p.used ++ x ∷ []; idle = rest }))
        (sym answer)
        (
          refl,
          record {
            entries = listed _ whole;
            count = omega (arith, r.count, length-append (p.used) (x ∷ []));
            room = subst (λ ws. length ws ≤ 4) whole r.room;
            objects = r.objects;
            gone = r.gone;
          },
        )

  next_new :
      m.use_count < 4
      → p.idle ≡ []
      → let x = get_rotator v p.made in
        Simulates
          (some (get_next v m))
          (some x, record p { used = p.used ++ x ∷ []; made = p.made + 1 })
  unfolding get_next
  next_new h e =
      let x = get_rotator v p.made in
      let n = record m {
        rot = update (m.rot) m.use_count (some x);
        use_count = m.use_count + 1;
        made = m.made + 1;
      } in
      let q = record p { used = p.used ++ x ∷ []; made = p.made + 1 } in
      let answer : get_next v m ≡ (some x, n) = ground (arith, top, e, r.objects) in
      let short : p.used ++ p.idle ≡ p.used = ap (λ is. p.used ++ is) e ∙ append-nil (p.used) in
      let whole : (p.used ++ x ∷ []) ++ p.idle ≡ p.used ++ x ∷ [] =
        ap (λ is. (p.used ++ x ∷ []) ++ is) e ∙ append-nil (p.used ++ x ∷ []) in
      subst (λ a. Simulates (some a) (some x, q)) (sym answer)
        (
          refl,
          record {
            entries = λ i.
                ground (arith, listed _ short i, get_elem?_snoc (p.used) x i, r.count)
                ∙ ap (λ ws. get_elem? ws i) (sym whole);
            count = omega (arith, r.count, length-append (p.used) (x ∷ []));
            room =
                subst (λ ws. length ws ≤ 4) (sym whole)
                  (omega (arith, r.count, length-append (p.used) (x ∷ [])));
            objects = omega (arith, r.objects);
            gone = r.gone;
          },
        )

  next-Simulates : Simulates (step v next_call m) (pool_step v next_call p)
  unfolding step pool_step lend
  next-Simulates =
      branch (leb 4 (length p.used)) (Simulates (some (get_next v m))) (none, p) (lend v p)
        (λ full. next_full (ground (arith, r.count)))
        λ free. elim (List-cases p.idle) [
          | inl e ↦
              subst (Simulates (some (get_next v m))) (let q : _ ≡ lend v p = ground arith in q)
                (next_new (ground (arith, r.count)) e)
          | inr (x, rest, e) ↦
              subst (Simulates (some (get_next v m))) (let q : _ ≡ lend v p = ground arith in q)
                (next_kept x rest (ground (arith, r.count)) e)
        ]

call-Simulates :
    (v : ℕ) (c : Call) (m : RotMgr) (p : Pool)
    → IsLegal c p
    → Represents m p
    → Simulates (step v c m) (pool_step v c p)
call-Simulates v begin_call m p l r = begin-Simulates v m p r
call-Simulates v next_call m p l r = next-Simulates v m p r
call-Simulates v done_call m p l r = done-Simulates v m p r
call-Simulates v clear_call m p l r = clear-Simulates v m p r
call-Simulates v (unused_call count) m p l r = unused-Simulates v m p r count l

-- The manager returns from the calls, with the answers of the pool, and lists the pool after them.
abbrev pub Agrees : Outcome → List (Option Rotator) × Pool → Type 0
Agrees none q = ⊥
Agrees (some (xs, n)) (ys, q) = (xs ≡ ys) × Represents n q

before-Agrees :
    (a b : Option Rotator) (o : Outcome) (q : List (Option Rotator) × Pool)
    → a ≡ b
    → Agrees o q
    → Agrees (before a o) (b ∷ q.0, q.1)
before-Agrees a b none q e h = h
before-Agrees a b (some (xs, n)) (ys, q) e (es, r) = (cc, r)

and_then-Agrees :
    (o : Option (Option Rotator × RotMgr)) (q : Option Rotator × Pool) (rest : RotMgr → Outcome)
    (t : List (Option Rotator) × Pool)
    → Simulates o q
    → ((n : RotMgr) → Represents n q.1 → Agrees (rest n) t)
    → Agrees (and_then o rest) (q.0 ∷ t.0, t.1)
and_then-Agrees none q rest t h k = absurd h
and_then-Agrees (some (a, n)) (b, q) rest t (e, r) k = before-Agrees a b (rest n) t e (k n r)

run-Agrees :
    (v : ℕ) (cs : List Call) (m : RotMgr) (p : Pool)
    → AllLegal v cs p
    → Represents m p
    → Agrees (run v cs m) (pool_run v cs p)
run-Agrees v [] m p l r = (refl, r)
run-Agrees v (c ∷ cs) m p (l, ls) r =
    and_then-Agrees (step v c m) (pool_step v c p) (run v cs) _ (call-Simulates v c m p l r)
      (λ n r'. run-Agrees v cs n (pool_step v c p).1 ls r')

-- After any legal calls on a new manager, each call has answered as the pool of sessions does, none
-- has faulted, and the array lists the rotators of the pool, those of this round first.
pub create_rot_mgr-Agrees :
    (v : ℕ) (cs : List Call)
    → AllLegal v cs empty_pool
    → Agrees (run v cs create_rot_mgr) (pool_run v cs empty_pool)
create_rot_mgr-Agrees v cs l =
    run-Agrees v cs create_rot_mgr empty_pool l
      record { entries = λ i. refl; count = refl; room = omega arith; objects = refl; gone = refl }

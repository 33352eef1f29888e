-- ===== src/Rotator/Pool.antt =====
-- The sessions of `RotMgr` as a pool: the list of the rotators of this round, and the list of those
-- kept from earlier rounds, with the calls on the pool and on the manager.
use android_device_casio_dtx.Base.{
  ℕ, zero, suc, ◌+◌, ◌-◌, ◌≤◌, ◌≡◌, Option, none, some, List, [], ◌∷◌, ◌++◌, length, get_elem?,
  if◌then◌else◌, leb,
}
use android_device_casio_dtx.Rotator.Manager.{
  Rotator, RotMgr, get_rotator, config_begin, config_done, get_next, clear, mark_unused_top,
  max_rot_sess,
}

pub record Pool : Type 0 where
  pub used : List Rotator
  pub idle : List Rotator
  pub made : ℕ
  pub deleted : List Rotator

abbrev pub empty_pool : Pool
empty_pool = record { used = []; idle = []; made = 0; deleted = [] }

abbrev pub take : ℕ → List Rotator → List Rotator
take zero xs = []
take (suc n) [] = []
take (suc n) (x ∷ xs) = x ∷ take n xs

abbrev pub drop : ℕ → List Rotator → List Rotator
drop zero xs = xs
drop (suc n) [] = []
drop (suc n) (x ∷ xs) = drop n xs

-- One more session: an idle rotator where there is one, else a new one.
unfoldable pub lend : ℕ → Pool → Option Rotator × Pool
lend mdp_version p = elim p.idle [
  | [] ↦
      let r = get_rotator mdp_version p.made in
      (some r, record p { used = p.used ++ r ∷ []; made = p.made + 1 })
  | r ∷ rest ↦ (some r, record p { used = p.used ++ r ∷ []; idle = rest })
]

pub data Call : Type 0 where
  begin_call next_call done_call clear_call : Call
  unused_call : ℕ → Call

-- What a call answers and makes of the pool.
unfoldable pub pool_step : ℕ → Call → Pool → Option Rotator × Pool
unfolding lend
pool_step v begin_call p = (none, record p { used = []; idle = p.used ++ p.idle })
pool_step v next_call p = if leb max_rot_sess (length p.used) then (none, p) else lend v p
pool_step v done_call p = (none, record p { idle = []; deleted = p.deleted ++ p.idle })
pool_step v clear_call p =
    (none, record p { used = []; idle = []; deleted = p.deleted ++ (p.used ++ p.idle) })
pool_step v (unused_call count) p =
    let keep = length p.used - count in
    (none, record p { used = take keep p.used; idle = drop keep p.used ++ p.idle })

-- The sessions given back were handed out in this round.
abbrev pub IsLegal : Call → Pool → Type 0
IsLegal begin_call p = Unit
IsLegal next_call p = Unit
IsLegal done_call p = Unit
IsLegal clear_call p = Unit
IsLegal (unused_call count) p = count ≤ length p.used

abbrev pub with_answer : Option RotMgr → Option (Option Rotator × RotMgr)
with_answer none = none
with_answer (some m) = some (none, m)

-- The same call on the manager; `none` is the fault of configDone.
unfoldable pub step : ℕ → Call → RotMgr → Option (Option Rotator × RotMgr)
unfolding config_begin config_done get_next clear mark_unused_top
step v begin_call m = some (none, config_begin m)
step v next_call m = some (get_next v m)
step v done_call m = with_answer (config_done m)
step v clear_call m = some (none, clear m)
step v (unused_call count) m = some (none, mark_unused_top count m)

-- The answers to a sequence of calls, and the state after it.
abbrev pub pool_run : ℕ → List Call → Pool → List (Option Rotator) × Pool
pool_run v [] p = ([], p)
pool_run v (c ∷ cs) p =
    let r = pool_step v c p in let rest = pool_run v cs r.1 in (r.0 ∷ rest.0, rest.1)

abbrev pub Outcome : Type 0
Outcome = Option (List (Option Rotator) × RotMgr)

abbrev pub before : Option Rotator → Outcome → Outcome
before a none = none
before a (some (answers, m)) = some (a ∷ answers, m)

abbrev pub and_then : Option (Option Rotator × RotMgr) → (RotMgr → Outcome) → Outcome
and_then none rest = none
and_then (some (a, m)) rest = before a (rest m)

abbrev pub run : ℕ → List Call → RotMgr → Outcome
run v [] m = some ([], m)
run v (c ∷ cs) m = and_then (step v c m) (run v cs)

-- Every call of the sequence is legal where it is made.
abbrev pub AllLegal : ℕ → List Call → Pool → Type 0
AllLegal v [] p = Unit
AllLegal v (c ∷ cs) p = IsLegal c p × AllLegal v cs (pool_step v c p).1

-- The array lists the pool's rotators, those of this round first.
pub record Represents (m : RotMgr) (p : Pool) : Type 0 where
  pub entries : (i : ℕ) → m.rot i ≡ get_elem? (p.used ++ p.idle) i
  pub count : m.use_count ≡ length p.used
  pub room : length (p.used ++ p.idle) ≤ max_rot_sess
  pub objects : m.made ≡ p.made
  pub gone : m.deleted ≡ p.deleted

-- ===== src/LockServer/Maintenance.antt =====
-- The lock maintenance of cmd/lock-rpc-server.go, between any handlers: the scan for long-lived
-- locks, the removal of one stale entry, and every history of them.
use mathlib.Core.Option
use minio.Base.{
  ℕ, ◌-◌, ◌≡◌, refl, ap, suc, if_pos, if_neg, inl, inr, true, false, [], ◌∷◌, Bool, Bool-cases,
  Option-cases, length, All, leb,
}
use minio.Base.Text.{Text, text_discrete}
use minio.Base.Assoc.{get}
use minio.LockServer.{
  LockRequesterInfo, LockArgs, Requesters, LockMap, is_write_lock, Call, handle, check_requesters,
  get_long_lived_locks, remove_entry_if_exists,
}
use minio.LockServer.Exclusion.{
  IsReader, IsLegal, IsLegalMap, dispatch-IsLegal, remove_entry_if_exists-IsLegal,
}

-- The requesters of a name after the scan.
abbrev renewed : Text → ℕ → ℕ → Requesters → Requesters
renewed name interval now lri = (check_requesters name interval now lri).0

module _ (name : Text) (interval now : ℕ) where
  renewed-writer :
      (r : LockRequesterInfo) (lri : Requesters)
      → (s : LockRequesterInfo) × (renewed name interval now (r ∷ lri)
          ≡ s ∷ renewed name interval now lri)
        × (s.writer ≡ r.writer)
        × (s.uid ≡ r.uid)
  unfolding check_requesters
  renewed-writer r lri = elim (Bool-cases (leb interval (now - r.time_last_check))) [
    | inl e ↦ (record r { time_last_check = now }, rw (e, renewed, check_requesters), refl, refl)
    | inr e ↦ (r, rw (e, renewed, check_requesters), refl, refl)
  ]

  renewed-readers :
      (lri : Requesters) → All IsReader lri → All IsReader (renewed name interval now lri)
  unfolding check_requesters
  renewed-readers [] h = tt
  renewed-readers (r ∷ lri) h =
      let (s, e, w, _) = renewed-writer r lri in rw e (rw w h.0, renewed-readers lri h.1)

  length-renewed : (lri : Requesters) → length (renewed name interval now lri) ≡ length lri
  unfolding check_requesters
  length-renewed [] = refl
  length-renewed (r ∷ lri) =
      let (s, e, _, _) = renewed-writer r lri in rw e (ap suc (length-renewed lri))

  renewed-write_lock :
      (lri : Requesters) → is_write_lock (renewed name interval now lri) ≡ is_write_lock lri
  unfolding check_requesters is_write_lock
  renewed-write_lock [] = refl
  renewed-write_lock (r ∷ []) = let (s, e, w, _) = renewed-writer r [] in rw (e, is_write_lock) w
  renewed-write_lock (r ∷ q ∷ lri) =
      let (s, e, _, _) = renewed-writer r (q ∷ lri) in
      let (t, f, _, _) = renewed-writer q lri in rw (e, f)

  renewed-IsLegal : (lri : Requesters) → IsLegal lri → IsLegal (renewed name interval now lri)
  renewed-IsLegal lri (inl w) = inl (rw renewed-write_lock w)
  renewed-IsLegal lri (inr (a, p)) = inr (renewed-readers lri a, rw length-renewed p)

get-get_long_lived_locks :
    (m : LockMap) (interval now : ℕ) (k : Text)
    → get text_discrete k (get_long_lived_locks m interval now).0
      ≡ Option.map (renewed k interval now) (get text_discrete k m)
unfolding get_long_lived_locks get Option.map
get-get_long_lived_locks [] interval now k = refl
get-get_long_lived_locks ((j, lri) ∷ m) interval now k = elim (text_discrete j k) [
  | yes p ↦ rw (if_pos _ p, if_pos _ p, p)
  | no n ↦ rw (if_neg _ n, if_neg _ n) (get-get_long_lived_locks m interval now k)
]

get_long_lived_locks-IsLegal :
    (m : LockMap) (interval now : ℕ)
    → IsLegalMap m
    → IsLegalMap (get_long_lived_locks m interval now).0
unfolding Option.map
get_long_lived_locks-IsLegal m interval now legal k x h =
    elim (Option-cases (get text_discrete k m)) [
      | inl e ↦ absurd (cc (rw (get-get_long_lived_locks, e) at h))
      | inr (lri, e) ↦
          let q : renewed k interval now lri ≡ x = cc (rw (get-get_long_lived_locks, e) at h) in
          rw (← q) (renewed-IsLegal k interval now lri (legal k lri e))
    ]

-- What can happen to the lock map: a call of a handler, authenticated or not; the scan for
-- long-lived locks; and the removal of one entry whose origin has answered that it expired. The
-- maintenance holds the mutex for a scan and for a removal, never for both.
pub data Step : LockMap → LockMap → Type 0 where
  handles :
      (m : LockMap) (authenticated : Bool) (call : Call) (args : LockArgs) (now : ℕ)
      → Step m (handle authenticated call m args now).0
  scans : (m : LockMap) (interval now : ℕ) → Step m (get_long_lived_locks m interval now).0
  purges : (m : LockMap) (p : Text × LockRequesterInfo) → Step m (remove_entry_if_exists m p)

pub data Reach (m : LockMap) : LockMap → Type 0 where
  here : Reach m m
  next : {m' m'' : LockMap} → Reach m m' → Step m' m'' → Reach m m''

Step-IsLegal : {m m' : LockMap} → Step m m' → IsLegalMap m → IsLegalMap m'
unfolding handle
Step-IsLegal (handles m true call args now) legal = dispatch-IsLegal m legal call args now
Step-IsLegal (handles m false call args now) legal = legal
Step-IsLegal (scans m interval now) legal = get_long_lived_locks-IsLegal m interval now legal
Step-IsLegal (purges m p) legal = remove_entry_if_exists-IsLegal m legal p

Reach-IsLegal : {m m' : LockMap} → IsLegalMap m → Reach m m' → IsLegalMap m'
Reach-IsLegal legal here = legal
Reach-IsLegal legal (next r s) = Step-IsLegal s (Reach-IsLegal legal r)

-- Mutual exclusion: from an empty lock map, after any calls, scans and removals in any order, the
-- requesters of every locked resource are one writer alone, or one or more readers and no writer.
pub mutual_exclusion : {m : LockMap} → Reach [] m → IsLegalMap m
unfolding get
mutual_exclusion r = Reach-IsLegal (λ k lri h. absurd (cc)) r

-- ===== src/Driver/Control/Ledger.antt =====
-- An abstract view of a session of kernel/hba.c: the commands that are pending and those that were
-- handed to `scsi_done`, without tasks, slots, numbers and locks.
use mathlib.Core.List.{append_assoc}
use vscsi_hba.Base.{
  Bool, true, false, ℕ, suc, ◌+◌, ◌≡◌, ◌≤◌, List, [], ◌∷◌, ◌++◌, ◌==◌, if◌then◌else◌, arith,
}

-- `pending` in the order in which the commands came, `completed` the latest first.
pub record Ledger : Type 0 where
  pub pending : List ℕ
  pub completed : List ℕ

-- One command leaves a list.
pub data Removes (sc : ℕ) : List ℕ → List ℕ → Type 0 where
  here : (xs : List ℕ) → Removes sc (sc ∷ xs) xs
  there : (x : ℕ) (xs ys : List ℕ) → Removes sc xs ys → Removes sc (x ∷ xs) (x ∷ ys)

-- What may happen, with the commands that come in; `d` says whether a command may be dropped.
pub data Moves (d : Bool) : List ℕ → Ledger → Ledger → Type 0 where
  accepts :
      (sc : ℕ) (p c : List ℕ)
      → Moves d
          (sc ∷ [])
          (record { pending = p; completed = c })
          (record { pending = p ++ (sc ∷ []); completed = c })
  refuses :
      (sc : ℕ) (p c : List ℕ)
      → Moves d
          (sc ∷ [])
          (record { pending = p; completed = c })
          (record { pending = p; completed = sc ∷ c })
  completes :
      (sc : ℕ) (p q c : List ℕ)
      → Removes sc p q
      → Moves d []
          (record { pending = p; completed = c })
          (record { pending = q; completed = sc ∷ c })
  drops :
      (sc : ℕ) (p q c : List ℕ)
      → d ≡ true
      → Removes sc p q
      → Moves d [] (record { pending = p; completed = c }) (record { pending = q; completed = c })

-- Any number of moves; the commands that come in are listed in order.
pub data Evolves (d : Bool) : List ℕ → Ledger → Ledger → Type 0 where
  stays : (l : Ledger) → Evolves d [] l l
  moves :
      (ins more : List ℕ) (l1 l2 l3 : Ledger)
      → Moves d ins l1 l2
      → Evolves d more l2 l3
      → Evolves d (ins ++ more) l1 l3

pub Evolves-trans :
    (d : Bool) (xs ys : List ℕ) (l1 l2 l3 : Ledger)
    → Evolves d xs l1 l2
    → Evolves d ys l2 l3
    → Evolves d (xs ++ ys) l1 l3
Evolves-trans d _ ys _ _ l3 (stays l) e = e
Evolves-trans d _ ys _ _ l3 (moves ins more l1 l l2 m f) e =
    rw (append_assoc ins more ys)
      (moves ins (more ++ ys) l1 l l3 m (Evolves-trans d more ys l l2 l3 f e))

-- How often a command occurs in a list.
abbrev pub occurrences : ℕ → List ℕ → ℕ
occurrences sc [] = 0
occurrences sc (x ∷ xs) = let n = occurrences sc xs in if x == sc then suc n else n

occurrences-append :
    (sc : ℕ) (xs ys : List ℕ) → occurrences sc (xs ++ ys) ≡ occurrences sc xs + occurrences sc ys
occurrences-append sc [] ys = omega arith
occurrences-append sc (x ∷ xs) ys = ground (arith, occurrences-append sc xs ys)

occurrences-Removes :
    (a sc : ℕ) (p q : List ℕ)
    → Removes sc p q
    → occurrences a p ≡ occurrences a (sc ∷ []) + occurrences a q
occurrences-Removes a sc _ _ (here xs) = occurrences-append a (sc ∷ []) xs
occurrences-Removes a sc _ _ (there x xs ys r) = ground (arith, occurrences-Removes a sc xs ys r)

-- How often a command is pending or completed.
abbrev pub entries : ℕ → Ledger → ℕ
entries sc l = occurrences sc l.pending + occurrences sc l.completed

Moves-entries :
    (d : Bool) (a : ℕ) (ins : List ℕ) (l l' : Ledger)
    → Moves d ins l l'
    → (entries a l' ≤ occurrences a ins + entries a l)
      × (d ≡ false → occurrences a ins + entries a l ≤ entries a l')
Moves-entries d a _ _ _ (accepts sc p c) =
    let more = occurrences-append a p (sc ∷ []) in (omega (arith, more), λ _. omega (arith, more))
Moves-entries d a _ _ _ (refuses sc p c) =
    let more = occurrences-append a (sc ∷ []) c in (omega (arith, more), λ _. omega (arith, more))
Moves-entries d a _ _ _ (completes sc p q c r) =
    let less = occurrences-Removes a sc p q r in
    let more = occurrences-append a (sc ∷ []) c in
    (omega (arith, less, more), λ _. omega (arith, less, more))
Moves-entries d a _ _ _ (drops sc p q c allowed r) =
    (omega (arith, occurrences-Removes a sc p q r), λ e. cc)

pub Evolves-entries :
    (d : Bool) (a : ℕ) (ins : List ℕ) (l l' : Ledger)
    → Evolves d ins l l'
    → (entries a l' ≤ occurrences a ins + entries a l)
      × (d ≡ false → occurrences a ins + entries a l ≤ entries a l')
Evolves-entries d a _ _ _ (stays l) = (omega arith, λ _. omega arith)
Evolves-entries d a _ _ _ (moves ins more l1 l2 l3 m e) =
    let (up, down) = Moves-entries d a ins l1 l2 m in
    let (up', down') = Evolves-entries d a more l2 l3 e in
    let split = occurrences-append a ins more in
    (omega (arith, up, up', split), λ f. omega (arith, down f, down' f, split))

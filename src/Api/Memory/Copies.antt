-- ===== src/Api/Memory/Copies.antt =====
-- What a deep copy promises: the copy reads as the original does, through new addresses, and the old
-- addresses keep what they hold. The promise for pointers and slices follows from that for the values
-- they lead to.
use caffe2_operator.Prelude.{
  ℕ, suc, ◌≤◌, ◌≡◌, refl, Option, none, some, List, [], ◌∷◌, ◌++◌, length, get_elem?, length-append,
  arith,
}
use caffe2_operator.Go.{Outcome, returns, ◌>>=◌, deref, Runs, Runs-then}
use caffe2_operator.Api.Memory.{Layout, Address, Pointer, Cell, Heap, allocate}

-- Every address of `P` holds in `h'` what it holds in `h`.
abbrev pub Agree : {l : Layout} → (Address → Type 0) → Heap l → Heap l → Type 0
Agree {l} P h h' =
    (a : Address) (c : Cell l) → P a → get_elem? h a ≡ some c → get_elem? h' a ≡ some c

abbrev pub Any : Address → Type 0
Any a = Unit

-- The addresses that are not in use in `h`.
abbrev pub New : {l : Layout} → Heap l → Address → Type 0
New h a = length h ≤ a

-- `h'` is `h`, and perhaps more.
pub record Later {l : Layout} (h h' : Heap l) : Type 0 where
  pub grows : length h ≤ length h'
  pub keeps : Agree Any h h'

pub Later-refl : {l : Layout} → (h : Heap l) → Later h h
Later-refl h = record { grows = omega arith; keeps = λ a c p e. e }

pub Later-trans : {l : Layout} → (h h' h'' : Heap l) → Later h h' → Later h' h'' → Later h h''
Later-trans h h' h'' p q = record {
  grows = omega (arith, p.grows, q.grows);
  keeps = λ a c u e. q.keeps a c tt (p.keeps a c tt e);
}

get_elem?-append {ℓ} :
    {A : Type ℓ} (xs ys : List A) (i : ℕ) (a : A)
    → get_elem? xs i ≡ some a
    → get_elem? (xs ++ ys) i ≡ some a
get_elem?-append [] ys i a e = absurd (no_element a e)
  where
    no_element : {B : Type ℓ} (b : B) → none ≡ some b → ⊥
    no_element b e = cc
get_elem?-append (x ∷ xs) ys ℕ.zero a e = e
get_elem?-append (x ∷ xs) ys (suc i) a e = get_elem?-append xs ys i a e

get_elem?-length {ℓ} :
    {A : Type ℓ} (xs ys : List A) (a : A) → get_elem? (xs ++ (a ∷ ys)) (length xs) ≡ some a
get_elem?-length [] ys a = refl
get_elem?-length (x ∷ xs) ys a = get_elem?-length xs ys a

allocate-Later : {l : Layout} → (c : Cell l) (h : Heap l) → Later h (allocate c h).1
allocate-Later c h = record {
  grows = omega (arith, length-append h (c ∷ []));
  keeps = λ a d u e. get_elem?-append h (c ∷ []) a d e;
}

-- What reads as what, through which addresses.
abbrev pub Reading : Layout → Type 0 → Type 0 → Type 1
Reading l T V = (Address → Type 0) → Heap l → T → V → Type 0

-- `DeepCopyInto`: what it writes into `out`, and the heap it leaves.
abbrev pub Copier : Layout → Type 0 → Type 0
Copier l T = T → Heap l → Outcome (T × Heap l)

-- The outcome of a copy of a value that reads as `v` in `h`.
pub record Copied {l : Layout} {T V : Type 0} (R : Reading l T V) (h : Heap l) (v : V)
    (r : T × Heap l) : Type 0 where
  pub later : Later h r.1
  pub reads : R (New h) r.1 r.0 v

-- What is read stays, where the addresses it goes through do.
abbrev pub Moves : (l : Layout) (T V : Type 0) → Reading l T V → Type 1
Moves l T V R =
    (P Q : Address → Type 0) (h h' : Heap l) (t : T) (v : V)
    → ((a : Address) → P a → Q a)
    → Agree P h h'
    → R P h t v
    → R Q h' t v

-- The promise.
abbrev pub Copies : (l : Layout) (T V : Type 0) → Reading l T V → Copier l T → Type 1
Copies l T V R copy =
    (P : Address → Type 0) (h : Heap l) (t : T) (v : V) → R P h t v → Runs (Copied R h v) (copy t h)

-- A pointer reads as what its address holds does, and nil as nothing.
abbrev pub PointsTo :
    {l : Layout} {T V : Type 0} → (Cell l → Option T) → Reading l T V → Reading l Pointer (Option V)
PointsTo out R P h none none = Unit
PointsTo out R P h none (some v) = ⊥
PointsTo out R P h (some a) none = ⊥
PointsTo {l} {T} out R P h (some a) (some v) =
    P a × (c : Cell l) × (get_elem? h a ≡ some c) × (t : T) × (out c ≡ some t) × R P h t v

abbrev pub EachReads : {l : Layout} {T V : Type 0} → Reading l T V → Reading l (List T) (List V)
EachReads R P h [] [] = Unit
EachReads R P h [] (v ∷ vs) = ⊥
EachReads R P h (t ∷ ts) [] = ⊥
EachReads R P h (t ∷ ts) (v ∷ vs) = R P h t v × EachReads R P h ts vs

-- `*out = *in` for a struct without pointers.
abbrev pub flat : {l : Layout} {T : Type 0} → Copier l T
flat t h = returns (t, h)

-- `new`, and a copy into it, for what is not nil.
abbrev pub copy_pointer :
    {l : Layout} {T : Type 0} → (Cell l → Option T) → (T → Cell l) → Copier l T → Copier l Pointer
copy_pointer out put copy none h = returns (none, h)
copy_pointer out put copy (some a) h = deref (get_elem? h a) >>= λ c. deref (out c) >>= λ t.
    copy t h >>= λ r. returns (some (allocate (put r.0) r.1).0, (allocate (put r.0) r.1).1)

-- The loop over the elements of a slice.
abbrev pub copy_each : {l : Layout} {T : Type 0} → Copier l T → Copier l (List T)
copy_each copy [] h = returns ([], h)
copy_each copy (t ∷ ts) h =
    copy t h >>= λ r. copy_each copy ts r.1 >>= λ rs. returns (r.0 ∷ rs.0, rs.1)

module _ {l : Layout} {T V : Type 0} (R : Reading l T V) (moves : Moves l T V R) where
  pub Reading-later :
      (P : Address → Type 0) (h h' : Heap l) (t : T) (v : V) → Later h h' → R P h t v → R P h' t v
  Reading-later P h h' t v p r = moves P P h h' t v (λ a u. u) (λ a c u e. p.keeps a c tt e) r

  -- Between a copy's own steps, what one of them copied stays.
  pub Copied-reads :
      (h₀ h h' : Heap l) (v : V) (r : T × Heap l)
      → Later h₀ h
      → Copied R h v r
      → Later r.1 h'
      → R (New h₀) h' r.0 v
  Copied-reads h₀ h h' v r before done after =
      moves (New h) (New h₀) r.1 h' r.0 v (λ a u. omega (arith, u, before.grows))
        (λ a c u e. after.keeps a c tt e) done.reads

  pub PointsTo-Moves : (out : Cell l → Option T) → Moves l Pointer (Option V) (PointsTo out R)
  PointsTo-Moves out P Q h h' none none wider agree r = tt
  PointsTo-Moves out P Q h h' none (some v) wider agree r = r
  PointsTo-Moves out P Q h h' (some a) none wider agree r = r
  PointsTo-Moves out P Q h h' (some a) (some v) wider agree (u, c, e, t, o, r) =
      (wider a u, c, agree a c u e, t, o, moves P Q h h' t v wider agree r)

  pub EachReads-Moves : Moves l (List T) (List V) (EachReads R)
  EachReads-Moves P Q h h' [] [] wider agree r = tt
  EachReads-Moves P Q h h' [] (v ∷ vs) wider agree r = r
  EachReads-Moves P Q h h' (t ∷ ts) [] wider agree r = r
  EachReads-Moves P Q h h' (t ∷ ts) (v ∷ vs) wider agree (r, rs) =
      (moves P Q h h' t v wider agree r, EachReads-Moves P Q h h' ts vs wider agree rs)

  module _ (copy : Copier l T) (copies : Copies l T V R copy) where
    pub PointsTo-Copies :
        (out : Cell l → Option T) (put : T → Cell l)
        → ((t : T) → out (put t) ≡ some t)
        → Copies l Pointer (Option V) (PointsTo out R) (copy_pointer out put copy)
    PointsTo-Copies out put law P h none none r = record { later = Later-refl h; reads = tt }
    PointsTo-Copies out put law P h none (some v) r = absurd r
    PointsTo-Copies out put law P h (some a) none r = absurd r
    PointsTo-Copies out put law P h (some a) (some v) (u, c, e, t, o, r) =
        rw (e, o)
          (Runs-then (Copied R h v) (Copied (PointsTo out R) h (some v)) (copy t h) _
            (copies P h t v r)
            (λ (t', h') done. record {
              later = Later-trans h h' _ done.later (allocate-Later (put t') h');
              reads = (
                done.later.grows,
                put t',
                get_elem?-length h' [] (put t'),
                t',
                law t',
                Copied-reads h h _ v (t', h') (Later-refl h) done (allocate-Later (put t') h'),
              );
            }))

    pub EachReads-Copies : Copies l (List T) (List V) (EachReads R) (copy_each copy)
    EachReads-Copies P h [] [] r = record { later = Later-refl h; reads = tt }
    EachReads-Copies P h [] (v ∷ vs) r = absurd r
    EachReads-Copies P h (t ∷ ts) [] r = absurd r
    EachReads-Copies P h (t ∷ ts) (v ∷ vs) (r, rs) =
        Runs-then (Copied R h v) (Copied (EachReads R) h (v ∷ vs)) (copy t h) _ (copies P h t v r)
          (λ (t', h') done.
            Runs-then (Copied (EachReads R) h' vs) (Copied (EachReads R) h (v ∷ vs))
              (copy_each copy ts h') _
              (EachReads-Copies P h' ts vs (
                EachReads-Moves P P h h' ts vs (λ a u. u) (λ a c u e. done.later.keeps a c tt e)
                  rs))
              (λ (ts', h'') more. record {
                later = Later-trans h h' h'' done.later more.later;
                reads = (
                  Copied-reads h h h'' v (t', h') (Later-refl h) done more.later,
                  EachReads-Moves (New h') (New h) h'' h'' ts' vs
                      (λ a u. omega (arith, u, done.later.grows)) (λ a c u e. e) more.reads,
                );
              }))

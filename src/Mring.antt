-- ===== src/Mring.antt =====
-- mring/mring.go: a ring buffer, from the slot that its pointer is at.
use migration_verifier_docdb.Base.{
  map-append, ℕ, zero, suc, ◌-◌, ◌<◌, ◌≡◌, refl, sym, ◌∙◌, ap, ap₂, Option, none, some, List, [],
  ◌∷◌, ◌++◌, append_assoc, append-nil, arith, map, length, length-append, length-map, drop,
  replicate, Outcome, ok, err, ◌>>=◌,
}

-- Queue: its slots in the order of the ring, the next one to be written first.
pub record Queue (T : Type 0) : Type 0 where
  pub size : ℕ
  pub slots : List (Option T)

-- A ring of no slots is a nil pointer, which Push reads.
pub data NilRing : Type 0 where
  nil_ring : NilRing

unfoldable pub new_queue : {T : Type 0} → ℕ → Queue T
new_queue capacity = record { size = capacity; slots = replicate capacity none }

abbrev write_slot : {T : Type 0} → T → List (Option T) → Outcome NilRing (List (Option T))
write_slot x [] = err nil_ring
write_slot x (s ∷ ss) = ok (ss ++ some x ∷ [])

-- Push: the slot is written, and the pointer moves on.
unfoldable pub push : {T : Type 0} → T → Queue T → Outcome NilRing (Queue T)
push x q = write_slot x q.slots >>= λ ss. ok (record { size = q.size; slots = ss })

abbrev pub populated : {T : Type 0} → List (Option T) → List T
populated [] = []
populated (none ∷ ss) = populated ss
populated (some x ∷ ss) = x ∷ populated ss

-- Get.
unfoldable pub get_all : {T : Type 0} → Queue T → List T
get_all q = populated q.slots

unfoldable pub push_all : {T : Type 0} → List T → Queue T → Outcome NilRing (Queue T)
unfolding push
push_all [] q = ok q
push_all (x ∷ xs) q = push x q >>= λ q'. push_all xs q'

-- The slots after some pushes, of a ring of a capacity.
abbrev slots_after : {T : Type 0} → ℕ → List T → List (Option T)
slots_after capacity xs = drop (length xs) (replicate capacity none ++ map some xs)

module _ {T : Type 0} where
  populated-map : (k : ℕ) (xs : List T) → populated (drop k (map some xs)) ≡ drop k xs
  populated-map zero [] = refl
  populated-map zero (x ∷ xs) = ap (λ ys. x ∷ ys) (populated-map zero xs)
  populated-map (suc k) [] = refl
  populated-map (suc k) (x ∷ xs) = populated-map k xs

  populated-drop :
      (c k : ℕ) (xs : List T)
      → populated (drop k (replicate c none ++ map some xs)) ≡ drop (k - c) xs
  populated-drop zero k xs = populated-map k xs ∙ ap (λ n. drop n xs) (omega arith)
  populated-drop (suc c) zero xs = populated-drop c zero xs ∙ ap (λ n. drop n xs) (omega arith)
  populated-drop (suc c) (suc k) xs = populated-drop c k xs ∙ ap (λ n. drop n xs) (omega arith)

  -- Writing the slot at the pointer.
  write-drop :
      (k : ℕ) (ls : List (Option T)) (x : T)
      → k < length ls
      → write_slot x (drop k ls) ≡ ok (drop (suc k) (ls ++ some x ∷ []))
  write-drop k [] x h = absurd (ground arith)
  write-drop zero (l ∷ ls) x h = refl
  write-drop (suc k) (l ∷ ls) x h = write-drop k ls x (omega (arith, h))

  length-replicate : (c : ℕ) (o : Option T) → length (replicate c o) ≡ c
  length-replicate zero o = refl
  length-replicate (suc c) o = ap suc (length-replicate c o)

  write-slots_after :
      (c : ℕ) (xs : List T) (x : T)
      → write_slot x (slots_after (suc c) xs) ≡ ok (slots_after (suc c) (xs ++ x ∷ []))
  write-slots_after c xs x =
      let empty : List (Option T) = replicate (suc c) none in
      let longer : suc (length xs) ≡ length (xs ++ x ∷ []) =
        omega (arith, length-append xs (x ∷ [])) in
      write-drop (length xs) (replicate (suc c) none ++ map some xs) x (
        omega (
          arith,
          length-append empty (map some xs),
          length-replicate (suc c) none,
          length-map {B = Option T} (λ y. some y) xs,
        ))
      ∙ ap₂ (λ n ls. ok (drop n ls)) longer
          (append_assoc (replicate (suc c) none) (map some xs) (some x ∷ [])
            ∙ ap (λ ys. replicate (suc c) none ++ ys) (sym (map-append some xs (x ∷ []))))

  push_all-slots :
      (c : ℕ) (seen xs : List T)
      → push_all xs (record { size = suc c; slots = slots_after (suc c) seen })
        ≡ ok (record { size = suc c; slots = slots_after (suc c) (seen ++ xs) })
  unfolding push_all
  push_all-slots c seen [] =
      ap (λ ys. ok (record { size = suc c; slots = slots_after (suc c) ys }))
        (sym (append-nil seen))
  push_all-slots c seen (x ∷ xs) =
      ap (λ k. (k >>= λ ss. ok (record { size = suc c; slots = ss })) >>= λ q'. push_all xs q')
        (write-slots_after c seen x)
      ∙ push_all-slots c (seen ++ x ∷ []) xs
      ∙ ap (λ ys. ok (record { size = suc c; slots = slots_after (suc c) ys }))
          (append_assoc seen (x ∷ []) xs)

-- A ring of at least one slot never fails; after any pushes, Get gives the last of the pushed values,
-- as many as there are slots, in the order they were pushed.
pub push_all-get_all :
    {T : Type 0} (c : ℕ) (xs : List T)
    → (q : Queue T) × (push_all xs (new_queue (suc c)) ≡ ok q)
      × (get_all q ≡ drop (length xs - suc c) xs)
unfolding new_queue get_all
push_all-get_all {T} c xs = (
  record { size = suc c; slots = slots_after (suc c) xs },
  ap (λ ss. push_all xs (record { size = suc c; slots = ss })) (sym (append-nil _))
      ∙ push_all-slots c [] xs,
  populated-drop (suc c) (length xs) xs,
)

-- ===== src/Base/Bytes/Laws.antt =====
-- Reading back a block of bytes that was written, and what the write leaves alone.
use Prim.Native.Nat.add
use Prim.Native.Nat.{ℕ, zero, suc, ◌+◌, ◌-◌, ◌≤◌, ◌<◌}
use mathlib.Core.Path.{◌≡◌, refl, sym, ap, ap₂, ◌∙◌}
use mathlib.Core.List.{[], ◌∷◌, ◌++◌, append_assoc, append-nil}
use mathlib.Core.Logic.{inl, inr}
use native.Mathlib.Nat.{le_refl}
use native.Mathlib.Omega.{arith}
use scilla.Base.Tests.{le→leb, ltb, Bool-cases}
use scilla.Base.Outcomes.{done, thrown}
use scilla.Base.Lists.{
  length, take, drop, replicate, drop_all, All, All-append, All-take, All-drop, length-append,
  length-take, length-drop, length-replicate, take-append, take-append_left, take-append-drop,
  drop-append, take_all,
}
use scilla.Base.Bytes.{Bytes, IsByte, slice, splice, write, read, resize, at, grow}

pub length-slice : (o n : ℕ) (v : Bytes) → o + n ≤ length v → length (slice o n v) ≡ n
length-slice o n v h = omega (arith, length-take n (drop o v), length-drop o v)

pub length-splice :
    (o : ℕ) (bs v : Bytes) → o + length bs ≤ length v → length (splice o bs v) ≡ length v
length-splice o bs v h = omega (
  arith,
  length-append (take o v) (bs ++ drop (o + length bs) v),
  length-append bs (drop (o + length bs) v),
  length-take o v,
  length-drop (o + length bs) v,
)

pub slice-splice :
    (o n : ℕ) (bs v : Bytes) → length bs ≡ n → o ≤ length v → slice o n (splice o bs v) ≡ bs
slice-splice o n bs v e h =
    rw (drop-append o (take o v) (bs ++ drop (o + length bs) v) (omega (arith, length-take o v)))
      (take-append n bs (drop (o + length bs) v) e)

pub take-splice : (o : ℕ) (bs v : Bytes) → o ≤ length v → take o (splice o bs v) ≡ take o v
take-splice o bs v h = take-append o (take o v) _ (omega (arith, length-take o v))

pub drop-drop : (m n : ℕ) (v : Bytes) → drop n (drop m v) ≡ drop (m + n) v
drop-drop zero n v = rw (add.zero n)
drop-drop (suc m) n [] = rw (add.suc m n) (drop-nil n)
  where
    drop-nil : (k : ℕ) → drop {A = ℕ} k [] ≡ []
    drop-nil zero = refl
    drop-nil (suc k) = refl
drop-drop (suc m) n (x ∷ v) = rw (add.suc m n) (drop-drop m n v)

-- Two blocks written one after the other are one block.
pub splice-splice :
    (o : ℕ) (xs bs v : Bytes)
    → o + length xs + length bs ≤ length v
    → splice (o + length xs) bs (splice o xs v) ≡ splice o (xs ++ bs) v
splice-splice o xs bs v h =
    let front = take o v ++ xs in
    let back = drop (o + length xs) v in
    let size : length front ≡ o + length xs =
      omega (arith, length-append (take o v) xs, length-take o v) in
    let cut : splice o xs v ≡ front ++ back = ap (λ t. t) (sym (append_assoc (take o v) xs back)) in
    let rest : drop (o + length xs + length bs) (front ++ back) ≡ drop (o + length (xs ++ bs)) v =
      sym (drop-drop (o + length xs) (length bs) (front ++ back))
      ∙ ap (drop (length bs)) (drop-append (o + length xs) front back size)
      ∙ drop-drop (o + length xs) (length bs) v
      ∙ ap (λ k. drop k v) (omega (arith, length-append xs bs)) in
    ap (splice (o + length xs) bs) cut
    ∙ ap₂ (λ a b. a ++ (bs ++ b)) (take-append (o + length xs) front back size) rest
    ∙ append_assoc (take o v) xs (bs ++ drop (o + length (xs ++ bs)) v)
    ∙ ap (λ t. take o v ++ t) (sym (append_assoc xs bs (drop (o + length (xs ++ bs)) v)))

pub write-splice :
    (o : ℕ) (bs v : Bytes) → o + length bs ≤ length v → write o bs v ≡ done (splice o bs v)
unfolding write
write-splice o bs v h = rw (le→leb _ _ h)

pub read-slice : (o n : ℕ) (v : Bytes) → o + n ≤ length v → read o n v ≡ done (slice o n v)
unfolding read
read-slice o n v h = rw (le→leb _ _ h)

pub length-resize : (n : ℕ) (v : Bytes) → length (resize n v) ≡ n
unfolding resize
length-resize n v = omega (
  arith,
  length-append (take n v) (replicate (n - length v) 0),
  length-take n v,
  length-replicate {A = ℕ} (n - length v) 0,
)

pub at-none : (v : Bytes) (i : ℕ) → length v ≤ i → at v i ≡ thrown
unfolding at
at-none [] i h = refl
at-none (x ∷ v) zero h = elim h [ ]
at-none (x ∷ v) (suc i) h = at-none v i (omega arith)

-- What is left of a list from `i` on, where `i` is in it.
pub drop_step :
    (i : ℕ) (v : Bytes)
    → i < length v
    → (b : ℕ) × (at v i ≡ done b) × (drop i v ≡ b ∷ drop (suc i) v)
unfolding at
drop_step zero [] h = elim h [ ]
drop_step (suc i) [] h = elim h [ ]
drop_step zero (x ∷ v) h = (x, refl, refl)
drop_step (suc i) (x ∷ v) h = drop_step i v (omega arith)

pub replicate-IsByte : (k : ℕ) → All IsByte (replicate k 0)
replicate-IsByte zero = tt
replicate-IsByte (suc k) = (omega arith, replicate-IsByte k)

pub resize-IsByte : (n : ℕ) (v : Bytes) → All IsByte v → All IsByte (resize n v)
unfolding resize
resize-IsByte n v h =
    All-append IsByte (take n v) (replicate (n - length v) 0) (All-take IsByte n v h)
      (replicate-IsByte (n - length v))

pub splice-IsByte :
    (o : ℕ) (bs v : Bytes) → All IsByte bs → All IsByte v → All IsByte (splice o bs v)
splice-IsByte o bs v hb hv =
    All-append IsByte (take o v) (bs ++ drop (o + length bs) v) (All-take IsByte o v hv)
      (All-append IsByte bs (drop (o + length bs) v) hb (All-drop IsByte (o + length bs) v hv))

-- A block over all of a vector leaves nothing of it.
pub splice_whole : (bs v : Bytes) → length bs ≡ length v → splice 0 bs v ≡ bs
splice_whole bs v e =
    rw (add.zero (length bs), e, drop_all (length v) v (le_refl _)) (append-nil bs)

pub read-eq-slice :
    (o n : ℕ) (v bs : Bytes) → read o n v ≡ done bs → (bs ≡ slice o n v) × (o + n ≤ length v)
unfolding read
read-eq-slice o n v bs e = ground arith

pub length-grow :
    (n : ℕ) (v : Bytes) → (n ≤ length (grow n v)) × (length (grow n v) ≤ length v + (n - length v))
length-grow n v = ground (arith, length-resize n v)

pub grow-IsByte : (n : ℕ) (v : Bytes) → All IsByte v → All IsByte (grow n v)
grow-IsByte n v h = ground (arith, resize-IsByte n v h)

take-drop : (o n : ℕ) (v : Bytes) → take n (drop o v) ≡ drop o (take (o + n) v)
take-drop zero n v = rw (add.zero n)
take-drop (suc o) n [] = rw (add.suc o n) (take-nil n)
  where
    take-nil : (k : ℕ) → take {A = ℕ} k [] ≡ []
    take-nil zero = refl
    take-nil (suc k) = refl
take-drop (suc o) n (x ∷ v) = rw (add.suc o n) (take-drop o n v)

-- Making a vector longer, and writing behind a block, leave the block as it was.
pub slice-grow : (o n k : ℕ) (v : Bytes) → o + n ≤ length v → slice o n (grow k v) ≡ slice o n v
slice-grow o n k v h = elim (Bool-cases (ltb (length v) k)) [
  | inl short ↦
      let whole : take k v ≡ v = take_all k v (ground arith) in
      let front : take (o + n) (resize k v) ≡ take (o + n) v =
        unfold resize in (rw whole (take-append_left (o + n) v (replicate (k - length v) 0) h)) in
      rw short (take-drop o n (resize k v) ∙ ap (drop o) front ∙ sym (take-drop o n v))
  | inr long ↦ rw long
]

pub slice-splice_behind :
    (o n k : ℕ) (bs v : Bytes) → o + n ≤ k → k ≤ length v → slice o n (splice k bs v) ≡ slice o n v
slice-splice_behind o n k bs v h inside =
    let front : take (o + n) (splice k bs v) ≡ take (o + n) v = take-take-splice in
    take-drop o n (splice k bs v) ∙ ap (drop o) front ∙ sym (take-drop o n v)
  where
    take-take-splice : take (o + n) (splice k bs v) ≡ take (o + n) v
    take-take-splice =
        take-append_left (o + n) (take k v) (bs ++ drop (k + length bs) v)
          (omega (arith, length-take k v))
        ∙ sym (take-append_left (o + n) (take k v) (drop k v) (omega (arith, length-take k v)))
        ∙ ap (take (o + n)) (take-append-drop k v)

-- ===== src/Vm/Memory/Patch.antt =====
-- What is read of a list after a part of it is written over.
use my_soft_plc.Prelude.{
  ℕ, zero, suc, ◌+◌, ◌≤◌, ◌<◌, ◌≡◌, refl, ap, sym, ◌∙◌, arith, List, [], ◌∷◌, ◌++◌, length,
  length-append, length-take, length-drop, get_or, set, take, drop,
}
use my_soft_plc.Ir.Bytes.{slice, slice-middle}
use my_soft_plc.Vm.Memory.{write_at}

write_at-suc :
    (x : ℕ) (xs p : List ℕ) (off : ℕ) → write_at (x ∷ xs) (suc off) p ≡ x ∷ write_at xs off p
unfolding write_at
write_at-suc x xs p off =
    let e : suc off + length p ≡ suc (off + length p) = omega arith in
    ap (λ j. take (suc off) (x ∷ xs) ++ (p ++ drop j (x ∷ xs))) e

pub length-write_at :
    (xs p : List ℕ) (off : ℕ) → off + length p ≤ length xs → length (write_at xs off p) ≡ length xs
unfolding write_at
length-write_at xs p off h = omega (
  arith,
  length-append (take off xs) (p ++ drop (off + length p) xs),
  length-append p (drop (off + length p) xs),
  length-take off xs,
  length-drop (off + length p) xs,
)

pub slice-write_at :
    (xs p : List ℕ) (off n : ℕ)
    → off ≤ length xs
    → length p ≡ n
    → slice (write_at xs off p) off n ≡ p
unfolding write_at
slice-write_at xs p off n h e =
    slice-middle (take off xs) p (drop (off + length p) xs) off n
      (omega (arith, length-take off xs)) e

drop_beyond :
    (p xs : List ℕ) (j : ℕ)
    → length p ≤ length xs
    → length p ≤ j
    → drop j (p ++ drop (length p) xs) ≡ drop j xs
drop_beyond [] xs j l h = refl
drop_beyond (b ∷ p) xs zero l h = absurd (omega arith)
drop_beyond (b ∷ p) [] (suc j) l h = absurd (omega arith)
drop_beyond (b ∷ p) (x ∷ xs) (suc j) l h = drop_beyond p xs j (omega arith) (omega arith)

pub drop-write_at :
    (xs p : List ℕ) (off j : ℕ)
    → off + length p ≤ length xs
    → off + length p ≤ j
    → drop j (write_at xs off p) ≡ drop j xs
drop-write_at xs p zero j h k =
    unfold write_at in
    let e : 0 + length p ≡ length p = omega arith in
    ap (λ n. drop j (p ++ drop n xs)) e ∙ drop_beyond p xs j (omega arith) (omega arith)
drop-write_at [] p (suc off) j h k = absurd (omega arith)
drop-write_at (x ∷ xs) p (suc off) zero h k = absurd (omega arith)
drop-write_at (x ∷ xs) p (suc off) (suc j) h k =
    ap (drop (suc j)) (write_at-suc x xs p off)
    ∙ drop-write_at xs p off j (omega arith) (omega arith)

pub slice-write_at_after :
    (xs p : List ℕ) (off j n : ℕ)
    → off + length p ≤ length xs
    → off + length p ≤ j
    → slice (write_at xs off p) j n ≡ slice xs j n
unfolding slice
slice-write_at_after xs p off j n h k = ap (take n) (drop-write_at xs p off j h k)

take-write_at :
    (xs p : List ℕ) (off n : ℕ) → off ≤ length xs → n ≤ off → take n (write_at xs off p) ≡ take n xs
take-write_at xs p off zero h k = refl
take-write_at xs p zero (suc n) h k = absurd (omega arith)
take-write_at [] p (suc off) (suc n) h k = absurd (omega arith)
take-write_at (x ∷ xs) p (suc off) (suc n) h k =
    ap (take (suc n)) (write_at-suc x xs p off)
    ∙ ap (λ ys. x ∷ ys) (take-write_at xs p off n (omega arith) (omega arith))

pub slice-write_at_before :
    (xs p : List ℕ) (off j n : ℕ)
    → off ≤ length xs
    → j + n ≤ off
    → slice (write_at xs off p) j n ≡ slice xs j n
unfolding slice
slice-write_at_before xs p off zero n h k = take-write_at xs p off n h (omega arith)
slice-write_at_before xs p zero (suc j) n h k = absurd (omega arith)
slice-write_at_before [] p (suc off) (suc j) n h k = absurd (omega arith)
slice-write_at_before (x ∷ xs) p (suc off) (suc j) n h k =
    ap (λ ys. take n (drop (suc j) ys)) (write_at-suc x xs p off)
    ∙ (unfold slice in slice-write_at_before xs p off j n (omega arith) (omega arith))

get_or-drop : (xs : List ℕ) (j d : ℕ) → get_or xs j d ≡ get_or (drop j xs) 0 d
get_or-drop xs zero d = refl
get_or-drop [] (suc j) d = refl
get_or-drop (x ∷ xs) (suc j) d = get_or-drop xs j d

pub get_or-write_at_after :
    (xs p : List ℕ) (off j d : ℕ)
    → off + length p ≤ length xs
    → off + length p ≤ j
    → get_or (write_at xs off p) j d ≡ get_or xs j d
get_or-write_at_after xs p off j d h k =
    get_or-drop (write_at xs off p) j d
    ∙ ap (λ ys. get_or ys 0 d) (drop-write_at xs p off j h k)
    ∙ sym (get_or-drop xs j d)

pub get_or-write_at_before :
    (xs p : List ℕ) (off j d : ℕ)
    → off ≤ length xs
    → j < off
    → get_or (write_at xs off p) j d ≡ get_or xs j d
get_or-write_at_before xs p zero j d h k = absurd (omega arith)
get_or-write_at_before [] p (suc off) j d h k = absurd (omega arith)
get_or-write_at_before (x ∷ xs) p (suc off) zero d h k =
    ap (λ ys. get_or ys 0 d) (write_at-suc x xs p off)
get_or-write_at_before (x ∷ xs) p (suc off) (suc j) d h k =
    ap (λ ys. get_or ys (suc j) d) (write_at-suc x xs p off)
    ∙ get_or-write_at_before xs p off j d (omega arith) (omega arith)

pub get_or-set_self : (xs : List ℕ) (i v d : ℕ) → i < length xs → get_or (set xs i v) i d ≡ v
get_or-set_self [] i v d h = absurd (omega arith)
get_or-set_self (x ∷ xs) zero v d h = refl
get_or-set_self (x ∷ xs) (suc i) v d h = get_or-set_self xs i v d (omega arith)

pub get_or-set_before :
    (xs : List ℕ) (i j v d : ℕ) → i < j → get_or (set xs i v) j d ≡ get_or xs j d
get_or-set_before [] i j v d h = refl
get_or-set_before (x ∷ xs) zero zero v d h = absurd (omega arith)
get_or-set_before (x ∷ xs) zero (suc j) v d h = refl
get_or-set_before (x ∷ xs) (suc i) zero v d h = absurd (omega arith)
get_or-set_before (x ∷ xs) (suc i) (suc j) v d h = get_or-set_before xs i j v d (omega arith)

pub get_or-set_after : (xs : List ℕ) (i j v d : ℕ) → j < i → get_or (set xs i v) j d ≡ get_or xs j d
get_or-set_after [] i j v d h = refl
get_or-set_after (x ∷ xs) zero j v d h = absurd (omega arith)
get_or-set_after (x ∷ xs) (suc i) zero v d h = refl
get_or-set_after (x ∷ xs) (suc i) (suc j) v d h = get_or-set_after xs i j v d (omega arith)

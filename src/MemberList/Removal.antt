-- ===== src/MemberList/Removal.antt =====
-- MemberRemoveByHostname ranges over a slice while it shortens it. Where at most one member matches,
-- this is safe and removes just that member; where two neighbours match, it panics.
use pulseha.Base.{
  ℕ, suc, ◌+◌, ◌-◌, List, [], ◌∷◌, ◌++◌, Bool, true, false, not, some, leb, ◌≡◌, refl, sym, ap, ◌∙◌,
  arith, get_elem?, take, drop, length, length-append, select, Bool-cases, inl, inr, All,
}
use mathlib.Core.List.{append_assoc}
use pulseha.MemberList.{remove_loop, shift}

module _ {ℓ} {A : Type ℓ} where
  take-append : (xs ys : List A) → take (length xs) (xs ++ ys) ≡ xs
  take-append [] ys = refl
  take-append (x ∷ xs) ys = rw (take-append xs ys)

  drop-append : (xs ys : List A) → drop (length xs) (xs ++ ys) ≡ ys
  drop-append [] ys = refl
  drop-append (x ∷ xs) ys = drop-append xs ys

  get_elem?-append :
      (xs : List A) (y : A) (ys : List A) → get_elem? (xs ++ y ∷ ys) (length xs) ≡ some y
  get_elem?-append [] y ys = refl
  get_elem?-append (x ∷ xs) y ys = get_elem?-append xs y ys

  take_all : (xs : List A) → take (length xs) xs ≡ xs
  take_all [] = refl
  take_all (x ∷ xs) = rw (take_all xs)

  -- All but the first element of a list that starts with `x`, and its last element again.
  abbrev last_of : A → List A → List A
  last_of x [] = x ∷ []
  last_of x (y ∷ ys) = last_of y ys

  length-last_of : (x : A) (xs : List A) → length (last_of x xs) ≡ 1
  length-last_of x [] = refl
  length-last_of x (y ∷ ys) = length-last_of y ys

  drop-last : (x : A) (xs : List A) → drop (length xs) (x ∷ xs) ≡ last_of x xs
  drop-last x [] = refl
  drop-last x (y ∷ ys) = drop-last y ys

  drop-append_more : (xs ys : List A) (n : ℕ) → drop (length xs + n) (xs ++ ys) ≡ drop n ys
  drop-append_more [] ys n = ap (λ m. drop m ys) (omega arith)
  drop-append_more (x ∷ xs) ys n =
      ap (λ m. drop m (x ∷ (xs ++ ys))) (suc_add (length xs) n) ∙ drop-append_more xs ys n
    where
      suc_add : (m n : ℕ) → suc m + n ≡ suc (m + n)
      suc_add m n = omega arith

  take-append_more : (xs ys : List A) (n : ℕ) → take (length xs + n) (xs ++ ys) ≡ xs ++ take n ys
  take-append_more [] ys n = ap (λ m. take m ys) (omega arith)
  take-append_more (x ∷ xs) ys n =
      ap (λ m. take m (x ∷ (xs ++ ys))) (suc_add (length xs) n)
      ∙ ap (λ l. x ∷ l) (take-append_more xs ys n)
    where
      suc_add : (m n : ℕ) → suc m + n ≡ suc (m + n)
      suc_add m n = omega arith

-- The array after `append(s[:i], s[i+1:]...)` at the element `x`.
shift_lem :
    (p q : List ℕ) (x : ℕ)
    → shift (p ++ x ∷ q) (length p) (length (p ++ x ∷ q)) ≡ p ++ (q ++ last_of x q)
shift_lem p q x = rw (take-append p (x ∷ q), take_all (p ++ x ∷ q), behind, at_end)
  where
    behind : drop (suc (length p)) (p ++ x ∷ q) ≡ q
    behind =
        ap (λ m. drop m (p ++ x ∷ q)) {x = suc (length p)} (omega arith)
        ∙ drop-append_more p (x ∷ q) 1

    at_end : drop (length (p ++ x ∷ q) - 1) (p ++ x ∷ q) ≡ last_of x q
    at_end =
        ap (λ m. drop m (p ++ x ∷ q)) {x = length (p ++ x ∷ q) - 1}
          (omega (arith, length-append p (x ∷ q)))
        ∙ drop-append_more p (x ∷ q) (length q)
        ∙ drop-last x q

module _ (hit : ℕ → Bool) where
  abbrev pub Miss : List ℕ → Type 0
  Miss = All (λ x. hit x ≡ false)

  -- Of the elements at most one is hit.
  abbrev pub AtMostOne : List ℕ → Type 0
  AtMostOne [] = Unit
  AtMostOne (x ∷ xs) = (hit x ≡ true → Miss xs) × AtMostOne xs

  Miss-last_of : (x : ℕ) (q : List ℕ) → hit x ≡ false → Miss q → Miss (q ++ last_of x q)
  Miss-last_of x [] h m = (h, tt)
  Miss-last_of x (y ∷ q) h m = (m.0, Miss-last_of y q m.0 m.1)

  -- With no match ahead the loop runs to its end.
  rest_missed :
      (p q b : List ℕ) (i n : ℕ)
      → b ≡ p ++ q
      → i ≡ length p
      → Miss q
      → remove_loop hit (length q) i b n ≡ some (take n b)
  unfolding remove_loop
  rest_missed p [] b i n e l m = refl
  rest_missed p (x ∷ q) b i n e l m =
      rw (here, remove_loop)
        (rw (m.0, remove_loop)
          (rest_missed (p ++ x ∷ []) q b (suc i) n (e ∙ sym (append_assoc p (x ∷ []) q)) longer
            m.1))
    where
      here : get_elem? b i ≡ some x
      here = rw (e, l) (get_elem?-append p x q)

      longer : suc i ≡ length (p ++ x ∷ [])
      longer = omega (arith, length-append p (x ∷ []))

  -- After the match the array still ends as it did, and none of its later entries matches.
  after_hit :
      (p q : List ℕ) (x : ℕ)
      → Miss q
      → remove_loop hit (length q) (suc (length p)) (p ++ (q ++ last_of x q)) (length p + length q)
        ≡ some (p ++ q)
  unfolding remove_loop
  after_hit p [] x m = ap some (take-append_more p (x ∷ []) 0)
  after_hit p (y ∷ q) x m =
      ap
        (λ k.
          remove_loop hit k (suc (length p)) (p ++ y ∷ (q ++ last_of y q))
            (length p + suc (length q)))
        count
      ∙ rest_missed (p ++ y ∷ []) (q ++ last_of y q) (p ++ y ∷ (q ++ last_of y q)) (suc (length p))
          (length p + suc (length q)) (sym (append_assoc p (y ∷ []) (q ++ last_of y q)))
          (omega (arith, length-append p (y ∷ []))) (Miss-last_of y q m.0 m.1)
      ∙ ap some (take-append_more p (y ∷ (q ++ last_of y q)) (suc (length q)))
      ∙ ap (λ l. some (p ++ y ∷ l)) (take-append q (last_of y q))
    where
      count : suc (length q) ≡ length (q ++ last_of y q)
      count = omega (arith, length-append q (last_of y q), length-last_of y q)

  select_missed : (q : List ℕ) → Miss q → select (λ x. not (hit x)) q ≡ q
  select_missed [] m = refl
  select_missed (x ∷ q) m = ground (arith, select_missed q m.1)

  remove_loop_from :
      (p q b : List ℕ) (i n : ℕ)
      → b ≡ p ++ q
      → i ≡ length p
      → n ≡ length p + length q
      → AtMostOne q
      → remove_loop hit (length q) i b n ≡ some (p ++ select (λ x. not (hit x)) q)
  unfolding remove_loop
  remove_loop_from p [] b i n e l k u = rw (e, k) (ap some (take-append_more p [] 0))
  remove_loop_from p (x ∷ q) b i n e l k u =
      rw (here, remove_loop)
        (elim (Bool-cases (hit x)) [
          | inl found ↦
              rw (found, room, remove_loop)
                (rw (select_missed q (u.0 found)) (shortened (u.0 found)))
          | inr miss ↦
              rw (miss, remove_loop)
                (remove_loop_from (p ++ x ∷ []) q b (suc i) n (e ∙ sym (append_assoc p (x ∷ []) q))
                    (omega (arith, length-append p (x ∷ [])))
                    (omega (arith, length-append p (x ∷ []))) u.1
                  ∙ ap some (append_assoc p (x ∷ []) (select (λ x. not (hit x)) q)))
        ])
    where
      here : get_elem? b i ≡ some x
      here = rw (e, l) (get_elem?-append p x q)

      room : leb (suc i) n ≡ true
      room = ground (arith, k, l)

      whole : n ≡ length (p ++ x ∷ q)
      whole = omega (arith, length-append p (x ∷ q))

      less : length (p ++ x ∷ q) - 1 ≡ length p + length q
      less = omega (arith, length-append p (x ∷ q))

      shortened : Miss q → remove_loop hit (length q) (suc i) (shift b i n) (n - 1) ≡ some (p ++ q)
      shortened m = rw (e, l, whole, shift_lem p q x, less) (after_hit p q x m)

-- Where at most one member matches, the loop neither panics nor skips: it leaves exactly the others.
pub remove_loop-select :
    (hit : ℕ → Bool) (ps : List ℕ)
    → AtMostOne hit ps
    → remove_loop hit (length ps) 0 ps (length ps) ≡ some (select (λ x. not (hit x)) ps)
remove_loop-select hit ps u = remove_loop_from hit [] ps ps 0 (length ps) refl refl (omega arith) u

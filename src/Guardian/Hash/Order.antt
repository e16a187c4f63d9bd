-- ===== src/Guardian/Hash/Order.antt =====
-- What the hash of an object does not see.
use kryneth_oss.Prelude.{
  ℕ, zero, suc, ◌+◌, ◌*◌, ◌/◌, ◌%◌, ◌≤◌, ◌≡◌, refl, sym, ap, ◌∙◌, List, [], ◌∷◌, Text, arith, ltb,
  if◌then◌else◌, Bool-cases, inl, inr,
}
use mathlib.Core.List.{Perm, Permᴰ}
use mathlib.Core.Logic.{∥∥₁_elim}
use native.Mathlib.Nat.{ℕ_set}
use kryneth_oss.Guardian.Json.{BorrowedValue, Members, object, no_member, member}
use kryneth_oss.Guardian.Hash.{
  xor_from, xor, AHasher, is_ignored, hash_borrowed_value, hash_members,
}

-- An object's members from a list, and those whose key is not ignored.
unfoldable pub members : List (Text × BorrowedValue) → Members
members [] = no_member
members ((k, v) ∷ ms) = member k v (members ms)

unfoldable pub kept : List (Text × BorrowedValue) → List (Text × BorrowedValue)
kept [] = []
kept ((k, v) ∷ ms) = let rest = kept ms in if is_ignored k then rest else (k, v) ∷ rest

halves : (a b r : ℕ) → (((a + b) % 2 + 2 * r) / 2 ≡ r) × (((a + b) % 2 + 2 * r) % 2 ≡ (a + b) % 2)
halves a b r = (omega arith, omega arith)

xor_from_comm : (n a b c : ℕ) → xor_from n (xor_from n a b) c ≡ xor_from n (xor_from n a c) b
unfolding xor_from
xor_from_comm zero a b c = refl
xor_from_comm (suc n) a b c =
    let x = xor_from n (a / 2) (b / 2) in
    let y = xor_from n (a / 2) (c / 2) in
    rw ((halves a b x).0, (halves a c y).0) (omega (arith, xor_from_comm n (a / 2) (b / 2) (c / 2)))

module _ {H : Type 0} (hasher : AHasher H) (i64_to_f64 u64_to_f64 : ℕ → ℕ)
    (to_string : BorrowedValue → Text) (depth : ℕ) where
  abbrev hashed : List (Text × BorrowedValue) → ℕ → ℕ
  hashed ms acc = hash_members hasher i64_to_f64 u64_to_f64 to_string depth (members ms) acc

  hashed-kept : (ms : List (Text × BorrowedValue)) (acc : ℕ) → hashed (kept ms) acc ≡ hashed ms acc
  unfolding hash_members members kept
  hashed-kept [] acc = refl
  hashed-kept ((k, v) ∷ ms) acc = elim (Bool-cases (is_ignored k)) [
    | inl e ↦ rw e (hashed-kept ms acc)
    | inr e ↦ rw e (rw e (hashed-kept ms _))
  ]

  hashed-swap :
      (x y : Text × BorrowedValue) (ms : List (Text × BorrowedValue)) (acc : ℕ)
      → hashed (x ∷ y ∷ ms) acc ≡ hashed (y ∷ x ∷ ms) acc
  unfolding hash_members members xor
  hashed-swap (j, v) (k, w) ms acc = elim (Bool-cases (is_ignored j)) [
    | inl e ↦ elim (Bool-cases (is_ignored k)) [ inl f ↦ rw (e, f) | inr f ↦ rw (e, f) ]
    | inr e ↦ elim (Bool-cases (is_ignored k)) [
      | inl f ↦ rw (e, f)
      | inr f ↦ rw (e, f) (ap (λ (n : ℕ). hashed ms n) (xor_from_comm 64 acc _ _))
    ]
  ]

  hashed-cons :
      (x y : Text × BorrowedValue) (ms ms' : List (Text × BorrowedValue)) (acc : ℕ)
      → x ≡ y
      → ((n : ℕ) → hashed ms n ≡ hashed ms' n)
      → hashed (x ∷ ms) acc ≡ hashed (y ∷ ms') acc
  unfolding hash_members members
  hashed-cons (k, v) y ms ms' acc e h = elim (Bool-cases (is_ignored k)) [
    | inl i ↦ rw i (h acc) ∙ ap (λ (z : Text × BorrowedValue). hashed (z ∷ ms') acc) e
    | inr i ↦ rw i (h _) ∙ ap (λ (z : Text × BorrowedValue). hashed (z ∷ ms') acc) e
  ]

  hashed-perm :
      {ms ms' : List (Text × BorrowedValue)} (acc : ℕ)
      → Permᴰ ms ms'
      → hashed ms acc ≡ hashed ms' acc
  unfolding hash_members members
  hashed-perm acc Permᴰ.nil = refl
  hashed-perm acc (Permᴰ.cons {a} {b} {l₁} {l₂} e p) =
      hashed-cons a b l₁ l₂ acc e (λ n. hashed-perm n p)
  hashed-perm acc (Permᴰ.swap {a} {b} {a'} {b'} {l} e f) = hashed-swap a b l acc ∙ cc (e, f)
  hashed-perm acc (Permᴰ.trans p q) = hashed-perm acc p ∙ hashed-perm acc q

  hashed-kept-perm :
      (ms ms' : List (Text × BorrowedValue)) (acc : ℕ)
      → Perm (kept ms) (kept ms')
      → hashed ms acc ≡ hashed ms' acc
  hashed-kept-perm ms ms' acc p =
      sym (hashed-kept ms acc) ∙ ∥∥₁_elim p (ℕ_set _ _) (hashed-perm acc) ∙ hashed-kept ms' acc

  -- Down to depth 16, two objects have the same hash whenever their members are the same in some
  -- order, the members with an ignored key left out: neither the order of the arguments nor a
  -- fresh timestamp, nonce, uuid, stream, session id or time makes a call look new.
  pub hash_object_lem :
      (ms ms' : List (Text × BorrowedValue)) (h : H)
      → depth ≤ 16
      → Perm (kept ms) (kept ms')
      → hash_borrowed_value hasher i64_to_f64 u64_to_f64 to_string depth (object (members ms)) h
        ≡ hash_borrowed_value hasher i64_to_f64 u64_to_f64 to_string depth (object (members ms')) h
  unfolding hash_borrowed_value
  hash_object_lem ms ms' h shallow p = elim (Bool-cases (ltb 16 depth)) [
    | inl deep ↦ absurd (ground arith)
    | inr e ↦
        rw e
          (ap (λ (n : ℕ). hasher.write_u64 n (hasher.write_u8 7 h)) (hashed-kept-perm ms ms' 0 p))
  ]

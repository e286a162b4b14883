-- ===== src/Settings/Bytes/Buffers.antt =====
-- Words inside buffers of bytes.
use mathlib.Core.Path.{subst}
use bmw_e9x_remote_control.Common.{
  ℕ, zero, suc, ◌+◌, ◌/◌, ◌^◌, ◌<◌, ◌≤◌, ◌≡◌, ◌∙◌, refl, List, [], ◌∷◌, ◌++◌, get_or, length, take,
  drop, suc_add, get_or-append, ap, bit_and, u32_mod, arith,
}
use bmw_e9x_remote_control.Settings.Bytes.{
  byte_at, write_u16, write_u32, write_u64, join32, read_u16, read_u32, read_u64,
}
use bmw_e9x_remote_control.Settings.Bytes.Words.{
  bit_and-word, byte_at_lem, join32_lem, join64_lem, write_u16-join16, write_u32-join32,
}

-- Every number of a buffer is a byte.
abbrev pub AllBytes : List ℕ → Type 0
AllBytes [] = Unit {0}
AllBytes (b ∷ bs) = (b < 256) × AllBytes bs

-- Writing back the word that was read at `k` gives the buffer from `k` on.
write_u16-read_u16 :
    (k : ℕ) (p : List ℕ)
    → k + 2 ≤ length p
    → AllBytes p
    → write_u16 (read_u16 p k) ++ drop (k + 2) p ≡ drop k p
write_u16-read_u16 zero (a ∷ b ∷ p) h (ha, (hb, _)) = ap (λ w. w ++ p) (write_u16-join16 a b ha hb)
write_u16-read_u16 zero [] h hp = absurd (omega arith)
write_u16-read_u16 zero (a ∷ []) h hp = absurd (omega arith)
write_u16-read_u16 (suc k) [] h hp = absurd (omega arith)
write_u16-read_u16 (suc k) (a ∷ p) h (ha, hp) =
    rw (suc_add k 1, suc_add k 2) (write_u16-read_u16 k p (omega arith) hp)

write_u32-read_u32 :
    (k : ℕ) (p : List ℕ)
    → k + 4 ≤ length p
    → AllBytes p
    → write_u32 (read_u32 p k) ++ drop (k + 4) p ≡ drop k p
write_u32-read_u32 zero (a ∷ b ∷ c ∷ d ∷ p) h (ha, (hb, (hc, (hd, _)))) =
    ap (λ w. w ++ p) (write_u32-join32 a b c d ha hb hc hd)
write_u32-read_u32 zero [] h hp = absurd (omega arith)
write_u32-read_u32 zero (a ∷ []) h hp = absurd (omega arith)
write_u32-read_u32 zero (a ∷ b ∷ []) h hp = absurd (omega arith)
write_u32-read_u32 zero (a ∷ b ∷ c ∷ []) h hp = absurd (omega arith)
write_u32-read_u32 (suc k) [] h hp = absurd (omega arith)
write_u32-read_u32 (suc k) (a ∷ p) h (ha, hp) =
    rw (suc_add k 1, suc_add k 2, suc_add k 3, suc_add k 4)
      (write_u32-read_u32 k p (omega arith) hp)

pub get_or-AllBytes : (p : List ℕ) (k : ℕ) → AllBytes p → get_or p k 0 < 256
get_or-AllBytes [] k hp = omega arith
get_or-AllBytes (a ∷ p) zero (ha, _) = ha
get_or-AllBytes (a ∷ p) (suc k) (ha, hp) = get_or-AllBytes p k hp

pub read_u32-bound : (p : List ℕ) (k : ℕ) → AllBytes p → read_u32 p k < u32_mod
read_u32-bound p k hp =
    let a = get_or-AllBytes p k hp in
    let b = get_or-AllBytes p (k + 1) hp in
    let c = get_or-AllBytes p (k + 2) hp in
    let d = get_or-AllBytes p (k + 3) hp in
    omega (
      arith,
      join32_lem (get_or p k 0) (get_or p (k + 1) 0) (get_or p (k + 2) 0) (get_or p (k + 3) 0) a b
          c,
    )

write_u64-read_u64 :
    (k : ℕ) (p : List ℕ)
    → AllBytes p
    → write_u64 (read_u64 p k) ≡ write_u32 (read_u32 p k) ++ write_u32 (read_u32 p (k + 4))
write_u64-read_u64 k p hp =
    let l = read_u32-bound p k hp in
    let w = read_u64 p k in
    let j = join64_lem (read_u32 p k) (read_u32 p (k + 4)) l in
    let low : bit_and w 4294967295 ≡ read_u32 p k = omega (arith, bit_and-word w) in
    let high : w / 2 ^ 32 ≡ read_u32 p (k + 4) = omega arith in rw (low, high) refl

module _ (k : ℕ) (p t : List ℕ) (hp : AllBytes p) where
  pub after_u16 : k + 2 ≤ length p → t ≡ drop (k + 2) p → write_u16 (read_u16 p k) ++ t ≡ drop k p
  after_u16 h e = rw e (write_u16-read_u16 k p h hp)

  pub after_u32 : k + 4 ≤ length p → t ≡ drop (k + 4) p → write_u32 (read_u32 p k) ++ t ≡ drop k p
  after_u32 h e = rw e (write_u32-read_u32 k p h hp)

  pub after_u64 : k + 8 ≤ length p → t ≡ drop (k + 8) p → write_u64 (read_u64 p k) ++ t ≡ drop k p
  after_u64 h e =
      let next : k + 4 + 4 ≡ k + 8 = omega arith in
      let high : write_u32 (read_u32 p (k + 4)) ++ t ≡ drop (k + 4) p = rw e (
        subst (λ j. write_u32 (read_u32 p (k + 4)) ++ drop j p ≡ drop (k + 4) p) next
          (write_u32-read_u32 (k + 4) p (omega arith) hp)) in
      ap (λ w. w ++ t) (write_u64-read_u64 k p hp)
      ∙ ap (λ w. write_u32 (read_u32 p k) ++ w) high
      ∙ write_u32-read_u32 k p (omega arith) hp

pub take-AllBytes : (n : ℕ) (p : List ℕ) → AllBytes p → AllBytes (take n p)
take-AllBytes zero p h = tt
take-AllBytes (suc n) [] h = tt
take-AllBytes (suc n) (b ∷ p) (hb, h) = (hb, take-AllBytes n p h)

pub append-AllBytes : (p q : List ℕ) → AllBytes p → AllBytes q → AllBytes (p ++ q)
append-AllBytes [] q hp hq = hq
append-AllBytes (b ∷ p) q (hb, hp) hq = (hb, append-AllBytes p q hp hq)

pub byte_at-bound : (v place : ℕ) → byte_at v place < 256
byte_at-bound v place = omega (arith, byte_at_lem v place)

-- A word after a prefix.
pub read_u32-append :
    (xs ys : List ℕ) (o : ℕ) → length xs ≡ o → read_u32 (xs ++ ys) o ≡ read_u32 ys 0
read_u32-append xs ys o h =
    let o0 : o ≡ length xs + 0 = omega arith in
    let o1 : o + 1 ≡ length xs + 1 = omega arith in
    let o2 : o + 2 ≡ length xs + 2 = omega arith in
    let o3 : o + 3 ≡ length xs + 3 = omega arith in
    rw (o1, o2, o3)
      (rw (get_or-append xs ys 1 0, get_or-append xs ys 2 0, get_or-append xs ys 3 0)
        (ap (λ x. join32 x (get_or ys 1 0) (get_or ys 2 0) (get_or ys 3 0))
          (ap (λ j. get_or (xs ++ ys) j 0) o0 ∙ get_or-append xs ys 0 0)))

pub write_u16-AllBytes : (v : ℕ) (t : List ℕ) → AllBytes t → AllBytes (write_u16 v ++ t)
write_u16-AllBytes v t h = (byte_at-bound v 1, (byte_at-bound v 256, h))

pub write_u32-AllBytes : (v : ℕ) (t : List ℕ) → AllBytes t → AllBytes (write_u32 v ++ t)
write_u32-AllBytes v t h = (
  byte_at-bound v 1,
  (byte_at-bound v 256, (byte_at-bound v 65536, (byte_at-bound v 16777216, h))),
)

pub write_u64-AllBytes : (v : ℕ) (t : List ℕ) → AllBytes t → AllBytes (write_u64 v ++ t)
write_u64-AllBytes v t h =
    write_u32-AllBytes (bit_and v 4294967295) (write_u32 (v / 2 ^ 32) ++ t)
      (write_u32-AllBytes (v / 2 ^ 32) t h)

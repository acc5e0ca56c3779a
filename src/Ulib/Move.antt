-- ===== src/Ulib/Move.antt =====
-- `memmove` of user/ulib.c (Lab-3 Task 3.2).
use cs344_os_lab.Base.{
  ℕ, zero, suc, ◌+◌, ◌-◌, ◌<◌, ◌≤◌, ◌≡◌, refl, ◌∙◌, ap, ◌≢◌, ◌⊎◌, arith, inl, inr,
}
use cs344_os_lab.Base.Tests.{Bool-cases, ltb, ltb→lt, ltb_ge, ◌==◌, ==→eq, ==→ne, ==_self, ==_ne}
use cs344_os_lab.Ulib.{store, copy_up, copy_down, memmove}

-- The `n` bytes at `dst` are those that were at `src`; the others are what they were.
pub record Moves (n dst src : ℕ) (mem mem' : ℕ → ℕ) : Type 0 where
  pub moved : (i : ℕ) → i < n → mem' (dst + i) ≡ mem (src + i)
  pub rest : (a : ℕ) → (a < dst) ⊎ (dst + n ≤ a) → mem' a ≡ mem a

store_at : (mem : ℕ → ℕ) (a v : ℕ) → store mem a v a ≡ v
store_at mem a v = rw (==_self a) refl

store_ne : (mem : ℕ → ℕ) (a v j : ℕ) → j ≢ a → store mem a v j ≡ mem j
store_ne mem a v j n = rw (==_ne j a n) refl

copy_up-Moves :
    (n dst src : ℕ) (mem : ℕ → ℕ) → dst < src → Moves n dst src mem (copy_up n dst src mem)
unfolding copy_up
copy_up-Moves zero dst src mem h = record {
  moved = λ i l. absurd (omega arith);
  rest = λ a o. refl;
}
copy_up-Moves (suc n) dst src mem h =
    let r = copy_up-Moves n (dst + 1) (src + 1) (store mem dst (mem src)) (omega arith) in
    record {
      moved = λ i l. elim (Bool-cases (i == 0)) [
        | inl e ↦
            let z : i ≡ 0 = ==→eq i 0 e in
            r.rest (dst + i) (inl (omega arith))
            ∙ ap (store mem dst (mem src)) (omega arith)
            ∙ store_at mem dst (mem src)
            ∙ ap mem (omega arith)
        | inr e ↦
            let z : i ≢ 0 = ==→ne i 0 e in
            ap (copy_up n (dst + 1) (src + 1) (store mem dst (mem src))) (ground arith)
            ∙ r.moved (i - 1) (ground arith)
            ∙ store_ne mem dst (mem src) _ (ground arith)
            ∙ ap mem (ground arith)
      ];
      rest = λ a o. r.rest a (ground (arith, o)) ∙ store_ne mem dst (mem src) a (ground (arith, o));
    }

copy_down-Moves :
    (n dst src : ℕ) (mem : ℕ → ℕ) → src ≤ dst → Moves n dst src mem (copy_down n dst src mem)
unfolding copy_down
copy_down-Moves zero dst src mem h = record {
  moved = λ i l. absurd (omega arith);
  rest = λ a o. refl;
}
copy_down-Moves (suc n) dst src mem h =
    let r = copy_down-Moves n dst src (store mem (dst + n) (mem (src + n))) h in
    record {
      moved = λ i l. elim (Bool-cases (i == n)) [
        | inl e ↦
            let z : i ≡ n = ==→eq i n e in
            r.rest (dst + i) (inr (omega arith))
            ∙ ap (store mem (dst + n) (mem (src + n))) (omega arith)
            ∙ store_at mem (dst + n) _
            ∙ ap mem (omega arith)
        | inr e ↦
            let z : i ≢ n = ==→ne i n e in
            r.moved i (ground arith) ∙ store_ne mem (dst + n) _ (src + i) (ground arith)
      ];
      rest = λ a o. r.rest a (ground (arith, o)) ∙ store_ne mem (dst + n) _ a (ground (arith, o));
    }

-- `memmove` moves `n` bytes, however the two ranges overlap, and changes no other byte.
pub memmove-Moves : (n dst src : ℕ) (mem : ℕ → ℕ) → Moves n dst src mem (memmove dst src n mem)
unfolding memmove
memmove-Moves n dst src mem = elim (Bool-cases (ltb dst src)) [
  | inl e ↦ rw (memmove, e) (copy_up-Moves n dst src mem (ltb→lt dst src e))
  | inr e ↦ rw (memmove, e) (copy_down-Moves n dst src mem (ltb_ge dst src e))
]

-- ===== src/Fs/Trunc/Ranks.antt =====
-- The order in which `itrunc` of Lab-5 Task 5.1, kernel/fs.c, frees the slots of an inode.
use cs344_os_lab.Base.{ℕ, ◌+◌, ◌*◌, ◌<◌, ◌≡◌, ap, ap₂, inl, inr, arith}
use cs344_os_lab.Base.Tests.{ltb, ◌==◌, if◌then◌else◌}
use cs344_os_lab.Fs.Slots.{Slot, top, sub, Legal, no_deeper}

-- The direct entries; the words of the indirect block and the block; for each block that the
-- doubly-indirect block names, its words and then itself; at last the doubly-indirect block.
unfoldable pub rank : Slot → ℕ
rank (top k) = if ltb k 11 then k else if k == 11 then 267 else 66060
rank (sub (top k) i) = if k == 11 then 11 + i else 524 + 257 * i
rank (sub (sub s h) i) = 268 + 257 * h + i

pub rank_injective : (s t : Slot) → Legal s → Legal t → rank s ≡ rank t → s ≡ t
unfolding rank Legal
rank_injective (top j) (top k) l m e = ap top (ground (arith, l, m, e))
rank_injective (top j) (sub (top k) i) l (inl f, m) e = absurd (ground (arith, l, m, e, f))
rank_injective (top j) (sub (top k) i) l (inr f, m) e = absurd (ground (arith, l, m, e, f))
rank_injective (top j) (sub (sub (top k) h) i) l (f, m, n) e = absurd (ground (arith, l, m, n, e))
rank_injective (sub (top j) i) (top k) (inl f, m) l e = absurd (ground (arith, l, m, e, f))
rank_injective (sub (top j) i) (top k) (inr f, m) l e = absurd (ground (arith, l, m, e, f))
rank_injective (sub (top j) i) (sub (top k) h) (inl f, l) (inl g, m) e =
    ap₂ (λ a b. sub (top a) b) (ground (arith, f, g)) (ground (arith, e, f, g))
rank_injective (sub (top j) i) (sub (top k) h) (inr f, l) (inr g, m) e =
    ap₂ (λ a b. sub (top a) b) (ground (arith, f, g)) (ground (arith, e, f, g))
rank_injective (sub (top j) i) (sub (top k) h) (inl f, l) (inr g, m) e =
    absurd (ground (arith, e, f, g, l))
rank_injective (sub (top j) i) (sub (top k) h) (inr f, l) (inl g, m) e =
    absurd (ground (arith, e, f, g, m))
rank_injective (sub (top j) i) (sub (sub (top k) h) g) (inl f, l) (q, m, n) e =
    absurd (ground (arith, e, f, l, m, n))
rank_injective (sub (top j) i) (sub (sub (top k) h) g) (inr f, l) (q, m, n) e =
    absurd (ground (arith, e, f, l, m, n))
rank_injective (sub (sub (top k) h) i) (top j) (f, m, n) l e = absurd (ground (arith, l, m, n, e))
rank_injective (sub (sub (top k) h) g) (sub (top j) i) (q, m, n) (inl f, l) e =
    absurd (ground (arith, e, f, l, m, n))
rank_injective (sub (sub (top k) h) g) (sub (top j) i) (q, m, n) (inr f, l) e =
    absurd (ground (arith, e, f, l, m, n))
rank_injective (sub (sub (top j) h) i) (sub (sub (top k) g) u) (f, l, m) (q, n, w) e =
    ap₂ (λ a b. sub a b) (ap₂ (λ a b. sub (top a) b) (ground (arith, f, q)) (omega arith))
      (omega arith)
rank_injective (sub (sub (sub s g) h) i) t l m e = absurd (no_deeper s g h i l)
rank_injective t (sub (sub (sub s g) h) i) m l e = absurd (no_deeper s g h i l)

-- Every slot is freed before the end.
pub rank_below : (s : Slot) → Legal s → rank s < 66061
unfolding rank Legal
rank_below (top k) l = ground (arith, l)
rank_below (sub (top k) i) (inl f, l) = ground (arith, l, f)
rank_below (sub (top k) i) (inr f, l) = ground (arith, l, f)
rank_below (sub (sub (top k) h) i) (f, l, m) = omega arith
rank_below (sub (sub (sub s g) h) i) l = absurd (no_deeper s g h i l)

pub rank_direct : (k : ℕ) → k < 11 → rank (top k) ≡ k
unfolding rank
rank_direct k l = ground (arith, l)

pub direct-Legal : (k : ℕ) → k < 11 → Legal (top k)
unfolding Legal
direct-Legal k l = omega arith

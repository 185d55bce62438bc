-- ===== src/Scan/ForkJoin.antt =====
-- The two halves of a task, in either order.
use parallel_load_balancing.Common.{Bool, true, false}
use parallel_load_balancing.Scan.{fork_join}

module _ {ℓ κ} {S : Type ℓ} (l r : S → S) where
  pub fork_join_keeps :
      (I : S → Type κ)
      → ((s : S) → I s → I (l s))
      → ((s : S) → I s → I (r s))
      → (first : Bool) (s : S) → I s
      → I (fork_join first l r s)
  fork_join_keeps I p q true s h = q (l s) (p s h)
  fork_join_keeps I p q false s h = p (r s) (q s h)

  -- Each half does its part, and keeps what the other needs and what the other has done.
  pub fork_join_both :
      (Pl Ql Pr Qr : S → Type κ)
      → ((s : S) → Pl s → Ql (l s))
      → ((s : S) → Pr s → Qr (r s))
      → ((s : S) → Pr s → Pr (l s))
      → ((s : S) → Qr s → Qr (l s))
      → ((s : S) → Pl s → Pl (r s))
      → ((s : S) → Ql s → Ql (r s))
      → (first : Bool) (s : S) → Pl s
      → Pr s
      → Ql (fork_join first l r s) × Qr (fork_join first l r s)
  fork_join_both Pl Ql Pr Qr dl dr kp kq jp jq true s hl hr =
      (jq (l s) (dl s hl), dr (l s) (kp s hr))
  fork_join_both Pl Ql Pr Qr dl dr kp kq jp jq false s hl hr =
      (dl (r s) (jp s hl), kq (r s) (dr s hr))

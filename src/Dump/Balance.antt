-- ===== src/Dump/Balance.antt =====
-- The brackets of the text that `ir_ctx_dump_bf` of csrc/src/ir_gen.c prints.
use bfcomp.Prelude.{ℕ, zero, suc, ◌≡◌, refl, ap, subst, ◌∙◌, List, [], ◌∷◌, ◌++◌, some, replicate}
use mathlib.Core.List.{append_assoc}
use bfcomp.Prelude.Int.{ℤ, pos, negsuc, pos_part}
use bfcomp.Ir.{Ctx, empty_ctx}
use bfcomp.Prog.{Basic, Prog, done, basic, loop, flatten}
use bfcomp.Parse.{ir_ctx_parse}
use bfcomp.Parse.Balance.{change, to, balance, balance-to, EndsWith, ir_ctx_parse-balance}
use bfcomp.Dump.{ir_ctx_dump_bf}
use bfcomp.Dump.Shown.{shown_op, shown_signed, shown, AllCountable, ir_ctx_dump_bf-shown}

balance-replicate :
    (n x d : ℕ) (rest : List ℕ)
    → change x d ≡ to d
    → balance d (replicate n x ++ rest) ≡ balance d rest
balance-replicate zero x d rest h = refl
balance-replicate (suc n) x d rest h = balance-to x d d _ h ∙ balance-replicate n x d rest h

balance-shown_op :
    (b : Basic) (z : ℤ) (d : ℕ) (rest : List ℕ) → balance d (shown_op b z ++ rest) ≡ balance d rest
unfolding shown_op shown_signed change
balance-shown_op Basic.read z d rest = balance-replicate (pos_part z) b',' d rest refl
balance-shown_op Basic.write z d rest = balance-replicate (pos_part z) b'.' d rest refl
balance-shown_op Basic.cell (pos n) d rest = balance-replicate n b'+' d rest refl
balance-shown_op Basic.cell (negsuc n) d rest = balance-replicate (suc n) b'-' d rest refl
balance-shown_op Basic.tape (pos n) d rest = balance-replicate n b'>' d rest refl
balance-shown_op Basic.tape (negsuc n) d rest = balance-replicate (suc n) b'<' d rest refl

balance-shown : (p : Prog) (d : ℕ) (rest : List ℕ) → balance d (shown p ++ rest) ≡ balance d rest
unfolding shown
balance-shown done d rest = refl
balance-shown (basic b z p) d rest =
    rw append_assoc (balance-shown_op b z d (shown p ++ rest) ∙ balance-shown p d rest)
balance-shown (loop body p) d rest =
    balance-to b'[' d (suc d) _ (unfold change in refl)
    ∙ ap (balance (suc d)) (append_assoc (shown body) (b']' ∷ shown p) rest)
    ∙ balance-shown body (suc d) (b']' ∷ (shown p ++ rest))
    ∙ balance-to b']' (suc d) d _ (unfold change in refl)
    ∙ balance-shown p d rest

-- For a well-nested program whose arguments are less than 2^31 in size, a text is printed, and the
-- parser accepts it, with no loop left open.
pub ir_ctx_parse-dump :
    (c : Ctx) (p : Prog)
    → c.code ≡ flatten p
    → AllCountable p
    → (text : List ℕ) × (ir_ctx_dump_bf c ≡ some text)
      × EndsWith (some 0) (ir_ctx_parse empty_ctx text)
ir_ctx_parse-dump c p e h = (
  shown p ++ 10 ∷ [],
  ir_ctx_dump_bf-shown c p e h,
  subst (λ v. EndsWith v (ir_ctx_parse empty_ctx (shown p ++ 10 ∷ [])))
      (balance-shown p 0 (10 ∷ []) ∙ unfold balance change in refl)
      (ir_ctx_parse-balance empty_ctx (shown p ++ 10 ∷ [])),
)

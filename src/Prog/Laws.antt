-- ===== src/Prog/Laws.antt =====
-- The layout of programs that are put together.
use bfcomp.Prelude.{◌≡◌, refl, List, [], ◌∷◌, ◌++◌}
use mathlib.Core.List.{append_assoc}
use bfcomp.Prog.{Prog, done, basic, loop, flatten, seq, flatten_open}

pub flatten-seq : (p q : Prog) → flatten (seq p q) ≡ flatten p ++ flatten q
unfolding flatten seq
flatten-seq done q = refl
flatten-seq (basic b z p) q = rw (flatten-seq p q)
flatten-seq (loop b p) q = simp (flatten-seq p q, append_assoc)

pub flatten_open-seq :
    (p q : Prog) (ps : List Prog) → flatten_open (seq p q) ps ≡ flatten_open p ps ++ flatten q
unfolding flatten_open
flatten_open-seq p q [] = flatten-seq p q
flatten_open-seq p q (r ∷ ps) = simp (flatten-seq p q, append_assoc)

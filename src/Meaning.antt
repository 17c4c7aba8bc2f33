-- ===== src/Meaning.antt =====
-- What a text in the language of csrc means, character by character: the specification that the parser
-- of csrc/src/ir_gen.c, the interpreter and the compiler are held against. It knows of no instructions,
-- counts or jumps.
mod Runs
mod Tame
mod Joining
mod Counted
pub mod Reader
mod Simulates
mod Rounds
mod Chunks
pub mod Commas
pub mod Parser
pub mod File
mod Tests
use bfcomp.Prelude.{
  ℕ, zero, suc, ◌+◌, ◌%◌, ◌^◌, ◌≡◌, ◌<◌, List, [], ◌∷◌, ◌++◌, Option, none, some, ltb, ◌==◌,
  if◌then◌else◌, length, get_elem?, set, replicate,
}
use mathlib.Core.Option
use bfcomp.Prelude.Int.{pos}
use bfcomp.Interp.{Store}

-- `>`, `<`, `+`, `-`, `.` and `,`.
pub data Command : Type 0 where
  right left inc dec put take : Command

-- A text without its comments, with the brackets matched.
pub data Source : Type 0 where
  stop : Source
  order : Command → Source → Source
  cycle : Source → Source → Source

unfoldable pub append : Source → Source → Source
append stop q = q
append (order c p) q = order c (append p q)
append (cycle b p) q = cycle b (append p q)

-- A tape with a position on it, the input that is left, and the output so far.
pub record State : Type 0 where
  pub here : ℕ
  pub cells : List ℕ
  pub input : List ℕ
  pub output : List ℕ

unfoldable pub change_cell : (ℕ → ℕ) → State → Option State
change_cell f s =
    Option.map (λ v. record s { cells = set s.cells s.here (f v) }) (get_elem? s.cells s.here)

unfoldable pub step_left : ℕ → State → Option State
step_left zero s = none
step_left (suc i) s = some (record s { here = i })

-- At the end of the input a cell stays as it is.
unfoldable pub take_from : List ℕ → State → Option State
take_from [] s = change_cell (λ v. v) s
take_from (x ∷ xs) s = change_cell (λ _. x) (record s { input = xs })

-- One character, on a tape with two ends.
unfoldable pub command : Command → State → Option State
command right s =
    if ltb (suc s.here) (length s.cells) then some (record s { here = suc s.here }) else none
command left s = step_left s.here s
command inc s = change_cell (λ v. (v + 1) % 256) s
command dec s = change_cell (λ v. (v + 255) % 256) s
command put s =
    Option.map (λ v. record s { output = s.output ++ v ∷ [] }) (get_elem? s.cells s.here)
command take s = take_from s.input s

-- What a text means: the runs from one state to another.
pub data Means : Source → State → State → Type 0 where
  stops : {s : State} → Means stop s s
  does :
      {c : Command} {p : Source} {s m t : State}
      → command c s ≡ some m
      → Means p m t
      → Means (order c p) s t
  passes :
      {body p : Source} {s t : State}
      → get_elem? s.cells s.here ≡ some 0
      → Means p s t
      → Means (cycle body p) s t
  repeats :
      {body p : Source} {s m t : State} (v : ℕ)
      → get_elem? s.cells s.here ≡ some (suc v)
      → Means body s m
      → Means (cycle body p) m t
      → Means (cycle body p) s t

-- What a character is.
pub data Token : Type 0 where
  orders : Command → Token
  opening : Token
  closing : Token
  comment : Token

unfoldable pub token : ℕ → Token
token x =
    if x == b','
    then orders take
    else if x == b'.'
    then orders put
    else if x == b'+'
    then orders inc
    else if x == b'-'
    then orders dec
    else if x == b'>'
    then orders right
    else if x == b'<'
    then orders left
    else if x == b'['
    then opening
    else if x == b']'
    then closing
    else comment

-- A text that is read up to some place: what stands behind the last bracket that is still open, and
-- what stands before each of those, the innermost first.
pub record Reading : Type 0 where
  pub body : Source
  pub outer : List Source

abbrev pub reading : Source → List Source → Reading
reading b o = record { body = b; outer = o }

unfoldable pub close_cycle : Source → List Source → Option Reading
close_cycle b [] = none
close_cycle b (p ∷ ps) = some (reading (append p (cycle b stop)) ps)

unfoldable pub read_token : Token → Reading → Option Reading
read_token (orders c) r = some (reading (append r.body (order c stop)) r.outer)
read_token opening r = some (reading stop (r.body ∷ r.outer))
read_token closing r = close_cycle r.body r.outer
read_token comment r = some r

-- The reader, which takes one character after the other.
unfoldable pub read_text : List ℕ → Reading → Option Reading
read_text [] r = some r
read_text (x ∷ xs) r = elim (read_token (token x) r) [ none ↦ none | some r' ↦ read_text xs r' ]

abbrev pub nothing_read : Reading
nothing_read = reading stop []

-- A state as the interpreter has it.
unfoldable pub as_store : State → Store
as_store s = record { sp = pos s.here; cells = s.cells; input = s.input; output = s.output }

-- The position is on the tape, and the tape has less than 2^61 cells.
pub record Fits (s : State) : Type 0 where
  pub on_tape : s.here < length s.cells
  pub small : length s.cells < 2 ^ 61

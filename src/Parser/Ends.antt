-- ===== src/Parser/Ends.antt =====
-- A function of the parser returns, and does not go back: the steps that keep this.
pub mod Lists
pub mod Lambda
pub mod New
pub mod Asm
pub mod Groups
pub mod Primary
pub mod Postfix
pub mod Infix
pub mod Ladder
use moksha.Base.{ℕ, suc, ◌≤◌, ◌<◌, ◌≡◌, refl, Bool, true, false, some, arith, Bool-cases}
use moksha.Lexer.Kinds.{TokenKind}
use moksha.Parser.Ast.{Expr, CaptureMode, is_null}
use moksha.Parser.State.{State, weight, at}
use moksha.Parser.Steps.{Result, Calling, Callees, chain, when, unless_null}

module _ {A : Type 0} where
  -- The function returns, and its state has a weight of at most `k`.
  pub record Ends (bound : ℕ) (k : ℕ) (o : Result A) : Type 0 where
    pub value : A
    pub state : State
    pub runs : o ≡ some (value, state)
    pub fits : weight bound state ≤ k

module _ {A : Type 0} {bound : ℕ} where
  pub Ends-some : (k : ℕ) (a : A) (s : State) → weight bound s ≤ k → Ends bound k (some (a, s))
  Ends-some k a s h = record { value = a; state = s; runs = refl; fits = h }

  pub Ends-when :
      (k : ℕ) (b : Bool) (s : State) (f g : State → Result A)
      → (b ≡ true → Ends bound k (f s))
      → (b ≡ false → Ends bound k (g s))
      → Ends bound k (when b s f g)
  unfolding when
  Ends-when k true s f g p q = p refl
  Ends-when k false s f g p q = q refl

  pub Ends-weaken : (j k : ℕ) (o : Result A) → j ≤ k → Ends bound j o → Ends bound k o
  Ends-weaken j k o h e = record {
    value = e.value;
    state = e.state;
    runs = e.runs;
    fits = omega (arith, e.fits);
  }

module _ {A B : Type 0} {bound : ℕ} where
  pub Ends-chain :
      (j k : ℕ) (o : Result A) (f : A → State → Result B)
      → Ends bound j o
      → ((a : A) (t : State) → weight bound t ≤ j → Ends bound k (f a t))
      → Ends bound k (chain o f)
  unfolding chain
  Ends-chain j k o f e h = rw e.runs (h e.value e.state e.fits)

pub Ends-unless :
    {bound : ℕ} (k : ℕ) (e : Expr) (s : State) (f : State → Result Expr)
    → weight bound s ≤ k
    → Ends bound k (f s)
    → Ends bound k (unless_null e s f)
unfolding unless_null
Ends-unless k e s f h p = Ends-when k (is_null e) s _ f (λ _. Ends-some k _ s h) (λ _. p)

-- The function returns on every state whose weight is below `n`, and does not go back. Where `n` is at
-- most `bound` and one more, these states end with the end of the file.
abbrev pub Total : {A : Type 0} → ℕ → ℕ → (State → Result A) → Type 0
Total bound n f = (k : ℕ) (s : State) → weight bound s ≤ k → k < n → Ends bound k (f s)

-- A function that calls the expression parser is total where that is.
abbrev pub Carries : {A : Type 0} → Calling A → Type 0
Carries f =
    (bound n : ℕ) (expression : State → Result Expr)
    → n ≤ bound
    → Total bound n expression
    → Total bound n (f expression)

-- What is asked of `parseType` and `parseBlock`: where the expression parser that they call returns
-- and does not go back, they do so too.
pub record Behaves (c : Callees) : Type 0 where
  pub parse_type : Carries c.parse_type
  pub parse_block : Carries c.parse_block

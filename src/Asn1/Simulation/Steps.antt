-- ===== src/Asn1/Simulation/Steps.antt =====
-- Runs of the loop, as equations for every fuel that is left.
use tongsuo_go.Base.{ℕ, suc, ◌+◌, ◌-◌, ◌≤◌, List, [], ◌∷◌, ◌≡◌, ap, ◌∙◌, arith, Result, ok, err}
use tongsuo_go.Asn1.Node.{Node, Header, ParseError}
use tongsuo_go.Asn1.Limits.{
  Frame, pop, push, fail, next_move, new_frame, advance, attach, complete, run,
}

module _ (max_depth max_nodes : ℕ) where
  -- With at most `budget` rounds the loop comes from one state to another.
  pub record Runs (budget count : ℕ) (top : Frame) (below : List Frame) (count' : ℕ) (top' : Frame)
      (below' : List Frame) : Type 0 where
    pub steps : ℕ
    pub within : steps ≤ budget
    pub agrees :
        (fuel : ℕ)
        → run max_depth max_nodes (fuel + steps) count top below
          ≡ run max_depth max_nodes fuel count' top' below'

  -- With at most `budget` rounds the loop ends with `r`.
  pub record Halts (budget count : ℕ) (top : Frame) (below : List Frame)
      (r : Result ParseError Node) : Type 0 where
    pub steps : ℕ
    pub within : steps ≤ budget
    pub agrees : (fuel : ℕ) → run max_depth max_nodes (fuel + steps) count top below ≡ r

  pub run-push :
      (fuel count : ℕ) (top : Frame) (below : List Frame) (child : Header) (size : ℕ)
      → next_move max_depth max_nodes count top ≡ push child size
      → run max_depth max_nodes (suc fuel) count top below
        ≡ run max_depth max_nodes fuel
            (count + 1)
            (new_frame child (top.cursor + size - child.size) (top.depth + 1))
            (advance top size ∷ below)
  unfolding run
  run-push fuel count top below child size h = rw (h, run)

  pub run-pop :
      (fuel count : ℕ) (top parent : Frame) (others : List Frame)
      → next_move max_depth max_nodes count top ≡ pop
      → run max_depth max_nodes (suc fuel) count top (parent ∷ others)
        ≡ run max_depth max_nodes fuel count (attach parent (complete top)) others
  unfolding run
  run-pop fuel count top parent others h = rw (h, run)

  pub run-last :
      (fuel count : ℕ) (top : Frame)
      → next_move max_depth max_nodes count top ≡ pop
      → run max_depth max_nodes (suc fuel) count top [] ≡ ok (complete top)
  unfolding run
  run-last fuel count top h = rw (h, run)

  pub run-fail :
      (fuel count : ℕ) (top : Frame) (below : List Frame) (e : ParseError)
      → next_move max_depth max_nodes count top ≡ fail e
      → run max_depth max_nodes (suc fuel) count top below ≡ err e
  unfolding run
  run-fail fuel count top below e h = rw (h, run)

  fuel_eq :
      {a b : ℕ} (count : ℕ) (top : Frame) (below : List Frame)
      → a ≡ b
      → run max_depth max_nodes a count top below ≡ run max_depth max_nodes b count top below
  fuel_eq count top below h = ap (λ n. run max_depth max_nodes n count top below) h

  pub Runs-refl :
      (budget count : ℕ) (top : Frame) (below : List Frame)
      → Runs budget count top below count top below
  Runs-refl budget count top below = record {
    steps = 0;
    within = omega arith;
    agrees = λ fuel. fuel_eq count top below (omega arith);
  }

  module _ {budget count : ℕ} {top : Frame} {below : List Frame} {count' : ℕ} {top' : Frame}
      {below' : List Frame} (first : Runs budget count top below count' top' below') where
    pub Runs-trans :
        {budget' count'' : ℕ} {top'' : Frame} {below'' : List Frame} (total : ℕ)
        → Runs budget' count' top' below' count'' top'' below''
        → budget + budget' ≤ total
        → Runs total count top below count'' top'' below''
    Runs-trans total second h = record {
      steps = second.steps + first.steps;
      within = omega (arith, first.within, second.within);
      agrees = λ fuel.
          fuel_eq count top below (omega arith)
          ∙ first.agrees (fuel + second.steps)
          ∙ second.agrees fuel;
    }

    pub Runs-Halts :
        {budget' : ℕ} {r : Result ParseError Node} (total : ℕ)
        → Halts budget' count' top' below' r
        → budget + budget' ≤ total
        → Halts total count top below r
    Runs-Halts total second h = record {
      steps = second.steps + first.steps;
      within = omega (arith, first.within, second.within);
      agrees = λ fuel.
          fuel_eq count top below (omega arith)
          ∙ first.agrees (fuel + second.steps)
          ∙ second.agrees fuel;
    }

  pub Runs-push :
      (count : ℕ) (top : Frame) (below : List Frame) (child : Header) (size : ℕ)
      → next_move max_depth max_nodes count top ≡ push child size
      → Runs 1 count top below
          (count + 1)
          (new_frame child (top.cursor + size - child.size) (top.depth + 1))
          (advance top size ∷ below)
  Runs-push count top below child size h = record {
    steps = 1;
    within = omega arith;
    agrees =
        λ fuel. fuel_eq count top below (omega arith) ∙ run-push fuel count top below child size h;
  }

  pub Runs-pop :
      (count : ℕ) (top parent : Frame) (others : List Frame)
      → next_move max_depth max_nodes count top ≡ pop
      → Runs 1 count top (parent ∷ others) count (attach parent (complete top)) others
  Runs-pop count top parent others h = record {
    steps = 1;
    within = omega arith;
    agrees = λ fuel.
        fuel_eq count top (parent ∷ others) (omega arith) ∙ run-pop fuel count top parent others h;
  }

  pub Halts-last :
      (count : ℕ) (top : Frame)
      → next_move max_depth max_nodes count top ≡ pop
      → Halts 1 count top [] (ok (complete top))
  Halts-last count top h = record {
    steps = 1;
    within = omega arith;
    agrees = λ fuel. fuel_eq count top [] (omega arith) ∙ run-last fuel count top h;
  }

  pub Halts-fail :
      (count : ℕ) (top : Frame) (below : List Frame) (e : ParseError)
      → next_move max_depth max_nodes count top ≡ fail e
      → Halts 1 count top below (err e)
  Halts-fail count top below e h = record {
    steps = 1;
    within = omega arith;
    agrees = λ fuel. fuel_eq count top below (omega arith) ∙ run-fail fuel count top below e h;
  }

-- ===== src/Manager/Naming.antt =====
-- manager/ServiceManager.h, `createService`: the names of the pods of one service.
use tiny_swarm.Prelude.{
  ℕ, ◌<◌, ◌≡◌, ◌≢◌, sym, ap, ◌∙◌, ◌∷◌, ◌++◌, ltb, drop, Bool-cases, inl, inr, if_true, arith,
}
use mathlib.Core.List.{append_cancel_left}
use tiny_swarm.Text.{Str}
use tiny_swarm.Text.Digits.{to_string, value_from, value-to_string}
use tiny_swarm.Manager.Registry.{alias_of}

-- A name with a number in range determines the number.
alias_of_injective :
    (token : Str) (num i j : ℕ)
    → i < num
    → j < num
    → alias_of token num i ≡ alias_of token num j
    → i ≡ j
alias_of_injective token num i j hi hj h = elim (Bool-cases (ltb 1 num)) [
  | inl many ↦
      let numbered : token ++ (b'_' ∷ to_string 10 i) ≡ token ++ (b'_' ∷ to_string 10 j) =
        sym (if_true _ token many) ∙ h ∙ if_true _ token many in
      let digits : to_string 10 i ≡ to_string 10 j =
        ap (drop 1) (append_cancel_left token _ _ numbered) in
      sym (value-to_string 10 i (omega arith))
      ∙ ap (value_from 10 0) digits
      ∙ value-to_string 10 j (omega arith)
  | inr one ↦ ground (arith, one)
]

-- No two pods that `createService` asks for in one call have the same name.
pub alias_of_distinct :
    (token : Str) (num i j : ℕ) → i < j → j < num → alias_of token num i ≢ alias_of token num j
alias_of_distinct token num i j h hj = λ e.
    let same = alias_of_injective token num i j (omega (arith, h, hj)) hj e in
    omega (arith, same, h)

-- ===== src/Models/Results.antt =====
-- `TestResult.__init__`: the output that is stored for a test result.
use jobserv.Prelude.{
  ℕ, zero, ◌⊎◌, inl, inr, Bool-cases, ◌+◌, ◌-◌, ◌≤◌, ◌≡◌, refl, ap, ◌∙◌, Option, none, some, [],
  ◌∷◌, ◌++◌, arith, Text, text, length, take, drop, take-append-drop, suc, length-append, leb,
  if◌then◌else◌,
}
use jobserv.Status.{BuildStatus}
use jobserv.Models.{TestResult}

-- `maxlen`, the size of the column.
abbrev pub max_len : ℕ
max_len = 65535

-- "<truncated>\n"
abbrev pub prefix : Text
prefix = text "<truncated>" ++ 10 ∷ []

unfoldable pub stored_output : Option Text → Option Text
stored_output none = none
stored_output (some output) =
    if leb (length output) max_len
    then some output
    else some (prefix ++ take (max_len - length prefix) output)

-- `TestResult(test, name, context, status, output)`
unfoldable pub new_result : Text → BuildStatus → Option Text → TestResult
unfolding stored_output
new_result name status output = record {
  name = name;
  status = status;
  output = stored_output output;
}

length-take : (n : ℕ) (t : Text) → n ≤ length t → length (take n t) ≡ n
length-take zero t h = refl
length-take (suc n) [] h = absurd (omega (arith, h))
length-take (suc n) (c ∷ t) h = omega (arith, length-take n t (omega (arith, h)))

-- The stored output of a test result fits its column: it is the output itself, or it fills the column
-- exactly and is, behind a mark, the beginning of the output.
pub new_result-output :
    (name : Text) (status : BuildStatus) (output : Text)
    → (stored : Text) × ((new_result name status (some output)).output ≡ some stored)
      × (length stored ≤ 65535)
      × ((stored ≡ output)
          ⊎ ((kept : Text) × (rest : Text) × (stored ≡ prefix ++ kept)
              × (kept ++ rest ≡ output)
              × (length stored ≡ 65535)))
unfolding new_result
new_result-output name status output = elim (Bool-cases (leb (length output) max_len)) [
  | inl e ↦ (output, rw e refl, ground (arith, e), inl refl)
  | inr e ↦
      let kept = take 65523 output in
      let n = length-take 65523 output (ground (arith, e)) in
      let full = length-append prefix kept ∙ ap (λ k. 12 + k) n in
      (
        prefix ++ kept,
        rw e refl,
        omega (arith, full),
        inr (kept, drop 65523 output, refl, take-append-drop 65523 output, full),
      )
]

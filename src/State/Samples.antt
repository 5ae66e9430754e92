-- ===== src/State/Samples.antt =====
-- The samples of status visits: the sampled touch hours as exact microseconds.
use jira_simulator.Base.{
  ℕ, ◌+◌, ◌*◌, ◌/◌, ◌%◌, String, str_eq, ◌&&◌, ◌||◌, List, [], ◌∷◌, ◌++◌, ltb, ◌==◌, if◌then◌else◌,
}
use jira_simulator.State.Checks.{
  Check, value_error, labelled, require_microseconds, require_text, require_lower_hex_digest,
}
use jira_simulator.State.Names.{Runtime}

pub record StatusVisitSample (R : Runtime) : Type 0 where
  pub visit_id : ℕ
  pub team_id : ℕ
  pub run_id : ℕ
  pub timing_profile : String
  pub timing_profile_version : String
  pub dwell_sampler_version : String
  pub touch_sampler_version : String
  pub documents : R.Documents
  pub touch_sampled_hours : R.Num
  pub required_work_microseconds : ℕ
  pub required_work_sha256 : String

-- The last step of `_hours_to_microseconds`: up past the half, and to the even number at the half.
unfoldable pub round_half_even : ℕ → ℕ → ℕ → ℕ
round_half_even whole twice_remainder denominator =
    if ltb denominator twice_remainder || (twice_remainder == denominator && whole % 2 == 1)
    then whole + 1
    else whole

-- `_hours_to_microseconds` of `numerator / denominator` hours
unfoldable pub hours_to_microseconds : ℕ → ℕ → ℕ
hours_to_microseconds numerator denominator =
    let scaled = numerator * 3600000000 in
    round_half_even (scaled / denominator) (scaled % denominator * 2) denominator

module _ (R : Runtime) where
  open R use {is_finite, as_integer_ratio, documents_match, required_work_digest}

  abbrev pub sampled_microseconds : R.Num → ℕ
  sampled_microseconds hours =
      hours_to_microseconds (as_integer_ratio hours).0 (as_integer_ratio hours).1

  -- `_validate_required_work`
  abbrev pub required_work_checks : StatusVisitSample R → List Check
  required_work_checks s =
      require_microseconds s.required_work_microseconds "required_work_microseconds"
      ∷ (
        is_finite s.touch_sampled_hours,
        labelled "touch sampled hours" "must be finite and non-negative",
      )
      ∷ require_microseconds (sampled_microseconds s.touch_sampled_hours)
          "required_work_microseconds"
      ∷ (
        s.required_work_microseconds == sampled_microseconds s.touch_sampled_hours,
        value_error "required work must equal retained touch sampled hours",
      )
      ∷ (require_lower_hex_digest s.required_work_sha256 "required_work_sha256"
          ++ ((
            str_eq s.required_work_sha256 (required_work_digest s.required_work_microseconds),
            value_error "required work digest does not match exact microseconds",
          )
              ∷ []))

  abbrev pub sample_checks : StatusVisitSample R → List Check
  sample_checks s =
      require_text s.timing_profile "timing_profile"
      ∷ require_text s.timing_profile_version "timing_profile_version"
      ∷ require_text s.dwell_sampler_version "dwell_sampler_version"
      ∷ require_text s.touch_sampler_version "touch_sampler_version"
      ∷ (
        documents_match s.documents s.visit_id s.team_id s.run_id s.touch_sampled_hours,
        value_error "the documents do not match the sample",
      )
      ∷ required_work_checks s

-- ===== src/TsValidate/Program/Reports.antt =====
-- What tsvalidate reports of a source.
use frib_e2sar.Base.{ℕ, ◌≤◌, ◌<◌, ◌≡◌, ◌⊎◌, List, Option, none, some, length, drop}
use frib_e2sar.Sender.{DataSource}
use frib_e2sar.Sender.Source.{Connections, SourceKind}
use frib_e2sar.TsValidate.{TypeNames, ItemFactory, Validator}
use frib_e2sar.TsValidate.Validation.{event_times, violations}

module _ {D : Type 0} ⦃factory : ItemFactory⦄ ⦃src : DataSource D⦄ ⦃names : TypeNames⦄
    ⦃daq : Connections⦄ (open_source : SourceKind → D) (time : List ℕ → ℕ) where
  -- The report: none if there are fewer items than are skipped, else of the items behind those.
  abbrev pub Reported : List ℕ → ℕ → List (List ℕ) → Option Validator → Type 0
  Reported excluded skip its report =
      ((length its < skip) × (report ≡ none))
      ⊎ ((t : Validator) × (skip ≤ length its)
          × (report ≡ some t)
          × (t.n_out_of_order ≡ violations 0 (event_times time excluded (drop skip its))))

-- ===== src/Reload/Atomic.antt =====
-- A reload of cmd/flowstitch/reload.go is all or nothing.
use flow_stitch.Base.{
  ◌≡◌, true, false, ltb, Option, none, some, Text, if◌then◌else◌, All, Pairwise, ◌⊎◌, Result, ok,
  err,
}
use flow_stitch.Domain.DocPath.{DocPath}
use flow_stitch.Domain.Rule.{Rule, Reference, validate}
use flow_stitch.Adapters.Registry.{opens, get}
use flow_stitch.Adapters.Registry.Pinned.{configured}
use flow_stitch.Adapters.Config.Wire.{Config}
use flow_stitch.Adapters.Config.Build.{ConfigError, passthrough_timestamp}
use flow_stitch.Adapters.Config.Check.{load}
use flow_stitch.Adapters.Config.Sound.Compatible.{are_compatible}
use flow_stitch.Reload.{ConfigReloader, Prepared, apply_config, reload}

-- What a reload comes to.
module _ (version : Rule → Option Text) (decode_file : Text → Result Text Config) where
  -- It leaves everything as it is, for a file that `Load` refuses or whose pass-through is off and
  -- has a malformed path.
  pub record Refused (path : Text) (r : ConfigReloader) : Type 0 where
    pub error : ConfigError
    pub unchanged : reload version decode_file path r ≡ (r, some error)
    pub fault :
        (load decode_file path ≡ err error)
        ⊎ ((c : Config) × (load decode_file path ≡ ok c)
            × (passthrough_timestamp c ≡ err error)
            × (c.passthrough.enabled ≡ false))

  -- It takes on everything, with rules that may stand together; what open flows pin stays.
  pub record Applied (path : Text) (r : ConfigReloader) : Type 0 where
    pub prepared : Prepared
    pub loaded : load decode_file path ≡ ok prepared.next
    pub changed : reload version decode_file path r ≡ (apply_config prepared r, none)
    pub valid : All (λ b. validate b ≡ ok tt) prepared.rules
    pub compatible : Pairwise (λ a b. are_compatible a b ≡ true) prepared.rules
    pub pinned :
        (k : Reference)
        → get k (apply_config prepared r).registry
          ≡ configured k prepared.rules
              (if ltb 0 (opens k r.registry.open_count) then get k r.registry else none)

-- ===== src/MarketEngine/Limits.antt =====
-- The position limit of the configuration, for the program in any mode.
use lob_market_maker.Prelude.{
  ℕ, suc, ◌+◌, ◌*◌, ◌^◌, ◌<◌, ◌≡◌, refl, sym, subst, Bool-cases, Option-cases, inl, inr, some, List,
  [], ◌∷◌, length, pos, ◌≤ℤ◌, arith,
}
use lob_market_maker.Types.{Timestamp, Quantity, symbol_of, same_text}
use lob_market_maker.Events.{MarketEvent}
use lob_market_maker.Double.{Double, Rng, ExactInts}
use lob_market_maker.Pipeline
use lob_market_maker.Pipeline.{PipelineConfig, ClockReads}
use lob_market_maker.Pipeline.Run.{LimitHolds, run-Within}
use lob_market_maker.CliArgs
use lob_market_maker.CliArgs.{Text, CliArgs, get_or, get_number_or}
use lob_market_maker.Codec.{read_file}
use lob_market_maker.Replay.{replay}
use lob_market_maker.Replay.Pace.{calls_of, replay-run}
use lob_market_maker.Live.{Happening}
use lob_market_maker.Live.Outcome.{run_live-Within}
use lob_market_maker.MarketEngine.Words.{
  max_word, mode_key, replay_word, live_word, symbol_key, aapl, data_key, speed_key, duration_key,
  spread_key, profile_stages_key,
}
use lob_market_maker.MarketEngine.{
  ConfigLibrary, Environment, Exit, replayed, ran_live, is_empty_text, parse_speed,
  build_pipeline_config, make_config, api_key_of, run_replay, or_thrown, feed_live, run_live_mode,
  dispatch,
}

length-calls_of :
    (clocks : ℕ → ClockReads) (i : ℕ) (evs : List MarketEvent)
    → length (calls_of clocks i evs) ≡ length evs
unfolding calls_of
length-calls_of clocks i [] = refl
length-calls_of clocks i (ev ∷ evs) = omega (arith, length-calls_of clocks (suc i) evs)

module _ {F R : Type 0} ⦃d : Double F⦄ ⦃g : Rng F R⦄ where
  -- A pipeline that the program ends with keeps the limit.
  pub KeepsLimit : Quantity → Exit F R → Type 0
  KeepsLimit most (replayed summary p) = LimitHolds {F = F} {R = R} most p
  KeepsLimit most (ran_live st) = LimitHolds {F = F} {R = R} most st.pipeline
  KeepsLimit most e = Unit

abbrev with_stages : {F : Type 0} → CliArgs → PipelineConfig F → PipelineConfig F
with_stages args pcfg = record pcfg { profile_stages = CliArgs.has args profile_stages_key }

module _ {J F : Type 0} ⦃d : Double F⦄ (lib : ConfigLibrary J F) (env : Environment F) where
  make_config-some :
      (args : CliArgs) (cfg : J) (pcfg : PipelineConfig F)
      → build_pipeline_config lib env cfg ≡ some pcfg
      → make_config lib env args cfg ≡ some (with_stages args pcfg)
  unfolding make_config
  make_config-some args cfg pcfg built = rw built refl

module _ {J F : Type 0} (R : Type 0) ⦃d : Double F⦄ ⦃g : Rng F R⦄ (lib : ConfigLibrary J F)
    (env : Environment F) (clocks : ℕ → ClockReads) (start end : Timestamp)
    (moved : MarketEvent → MarketEvent) (fresh : MarketEvent) (happened : List Happening) where
  module _ (exact : ExactInts F) (cfg : J) (pcfg : PipelineConfig F)
      (built : build_pipeline_config lib env cfg ≡ some pcfg)
      (least : pos 0 ≤ℤ pcfg.risk_limits.max_position)
      (most : pcfg.risk_limits.max_position ≤ℤ pos (2 ^ 52)) where
    replay-KeepsLimit :
        (speed : F) (evs : List MarketEvent) (symbol : Text) (args : CliArgs)
        → 2 * length evs + 1 < 2 ^ 64
        → LimitHolds {F = F} {R = R} pcfg.risk_limits.max_position
            (replay speed clocks start end evs
              (Pipeline.create (symbol_of symbol) (with_stages args pcfg))).0
    replay-KeepsLimit speed evs symbol args small =
        let p = Pipeline.create {F = F} {R = R} (symbol_of symbol) (with_stages args pcfg) in
        subst (LimitHolds {F = F} {R = R} pcfg.risk_limits.max_position)
          (sym (replay-run speed clocks start end evs p (omega arith)).0)
          (run-Within R exact (symbol_of symbol) (with_stages args pcfg) (calls_of clocks 0 evs)
            least most (omega (arith, length-calls_of clocks 0 evs)))

    run_replay-KeepsLimit :
        (args : CliArgs) (symbol : Text)
        → ((path : Text) (bytes : List ℕ) (evs : List MarketEvent)
            → env.file path ≡ some bytes
            → read_file bytes ≡ some evs
            → 2 * length evs + 1 < 2 ^ 64)
        → KeepsLimit pcfg.risk_limits.max_position
            (run_replay {R = R} lib env clocks start end moved fresh happened args cfg symbol)
    unfolding run_replay KeepsLimit
    run_replay-KeepsLimit args symbol small =
        let path = get_or args data_key [] in
        elim (Bool-cases (is_empty_text path)) [
          | inl e ↦ rw e tt
          | inr named ↦ elim (Option-cases (env.file path)) [
            | inl e ↦ rw (named, e) tt
            | inr (bytes, stored) ↦ elim (Option-cases (read_file bytes)) [
              | inl e ↦ rw (named, stored, e) tt
              | inr (evs, readable) ↦
                  rw (named, stored, readable, make_config-some lib env args cfg pcfg built)
                    (replay-KeepsLimit (parse_speed lib env (get_or args speed_key max_word)) evs
                      symbol args (small path bytes evs stored readable))
            ]
          ]
        ]

    feed_live-KeepsLimit :
        (args : CliArgs) (symbol : Text)
        → 2 * length happened + 1 < 2 ^ 64
        → KeepsLimit pcfg.risk_limits.max_position (
            or_thrown
              (feed_live {R = R} lib env clocks start end moved fresh happened args cfg symbol))
    unfolding feed_live KeepsLimit
    feed_live-KeepsLimit args symbol small =
        elim (Option-cases (get_number_or env.stol args duration_key (pos 60))) [
          | inl e ↦ rw e tt
          | inr (seconds, e) ↦
              elim (Option-cases (get_number_or env.stod args spread_key (d.decimal (pos 2) 2))) [
                | inl e' ↦ rw (e, e') tt
                | inr (spread, e') ↦
                    rw (e, e', make_config-some lib env args cfg pcfg built)
                      (run_live-Within moved clocks exact (symbol_of symbol) (with_stages args pcfg)
                        happened fresh least most small)
              ]
        ]

    run_live_mode-KeepsLimit :
        (args : CliArgs) (symbol : Text)
        → 2 * length happened + 1 < 2 ^ 64
        → KeepsLimit pcfg.risk_limits.max_position
            (run_live_mode {R = R} lib env clocks start end moved fresh happened args cfg symbol)
    unfolding run_live_mode KeepsLimit
    run_live_mode-KeepsLimit args symbol small = elim (Option-cases (api_key_of lib env cfg)) [
      | inl e ↦ rw e tt
      | inr (key, e) ↦ elim (Bool-cases (is_empty_text key)) [
        | inl e' ↦ rw (e, e') tt
        | inr e' ↦ rw (e, e') (feed_live-KeepsLimit args symbol small)
      ]
    ]

    -- For a loaded configuration whose values can be read and whose max_position lies between 0 and
    -- 2 ^ 52, doubles that are exact on whole numbers up to 2 ^ 53, logs of fewer than 2 ^ 63 - 1
    -- events and a live run of fewer than 2 ^ 63 - 1 arrivals and pops: whatever the arguments and the
    -- mode, if a replay or a live run is done, its last position is within max_position even if all
    -- that is open on one side were filled and nothing on the other.
    pub dispatch-KeepsLimit :
        (args : CliArgs)
        → ((path : Text) (bytes : List ℕ) (evs : List MarketEvent)
            → env.file path ≡ some bytes
            → read_file bytes ≡ some evs
            → 2 * length evs + 1 < 2 ^ 64)
        → 2 * length happened + 1 < 2 ^ 64
        → KeepsLimit pcfg.risk_limits.max_position
            (dispatch {R = R} lib env clocks start end moved fresh happened args cfg)
    unfolding dispatch KeepsLimit
    dispatch-KeepsLimit args small_logs small =
        let mode = get_or args mode_key replay_word in
        let symbol = get_or args symbol_key aapl in
        elim (Bool-cases (same_text mode replay_word)) [
          | inl e ↦ rw e (run_replay-KeepsLimit args symbol small_logs)
          | inr e ↦ elim (Bool-cases (same_text mode live_word)) [
            | inl e' ↦ rw (e, e') (run_live_mode-KeepsLimit args symbol small)
            | inr e' ↦ rw (e, e') tt
          ]
        ]

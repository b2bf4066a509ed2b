-- ===== src/Tests/Log.antt =====
-- The theorems on the event log, applied to two events.
use lob_market_maker.Prelude.{◌≡◌, refl, [], ◌∷◌, ◌++◌, some, arith}
use lob_market_maker.Codec.{read_event, write_event, read_file, write_file}
use lob_market_maker.Codec.Roundtrip.{IsLoggable, read_event-write_event}
use lob_market_maker.Codec.Files.{read_file-write_file}
use lob_market_maker.Tests.Inputs.{print, withdrawal}

pub print-IsLoggable : IsLoggable print
print-IsLoggable = record {
  timestamp_fits = (omega arith, omega arith);
  sequence_fits = omega arith;
  price_fits = (omega arith, omega arith);
  quantity_fits = (omega arith, omega arith);
  type_fits = tt;
  text = 65 ∷ 66 ∷ 67 ∷ [];
  symbol_eq = refl;
}

pub withdrawal-IsLoggable : IsLoggable withdrawal
withdrawal-IsLoggable = record {
  timestamp_fits = (omega arith, omega arith);
  sequence_fits = omega arith;
  price_fits = (omega arith, omega arith);
  quantity_fits = (omega arith, omega arith);
  type_fits = tt;
  text = 65 ∷ 66 ∷ 67 ∷ [];
  symbol_eq = refl;
}

read_event-write_event_example : read_event (write_event print ++ (7 ∷ [])) ≡ some (print, 7 ∷ [])
read_event-write_event_example = read_event-write_event print (7 ∷ []) print-IsLoggable

read_file-write_file_example :
    read_file (write_file (print ∷ withdrawal ∷ [])) ≡ some (print ∷ withdrawal ∷ [])
read_file-write_file_example =
    read_file-write_file (print ∷ withdrawal ∷ []) (print-IsLoggable, (withdrawal-IsLoggable, tt))

-- ===== src/Tests/Texts.antt =====
-- The texts of src/error.rs that its own test states.
use litefan.Prelude.{◌≡◌, refl, ◌==◌, if◌then◌else◌}
use litefan.Error.{batch_too_large, consumer_not_empty}
use litefan.Error.Display.{Formats, display}

-- The formats of the two values that the test uses.
abbrev formats : Formats
formats = record {
  decimal = λ n. if n == 10 then "10" else if n == 5 then "5" else "2";
  quoted = λ name. "\"worker\"";
  database = λ e. "";
}

batch_text : display formats (batch_too_large 10 5) ≡ "batch contains 10 items; maximum is 5"
unfolding display
batch_text = refl

consumer_text :
    display formats (consumer_not_empty "worker" 2)
    ≡ "consumer \"worker\" still has 2 outstanding deliveries"
unfolding display
consumer_text = refl

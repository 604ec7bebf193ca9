-- ===== src/Pipeline/Reply.antt =====
-- orchestration/pipeline.py: `_bounded_reply`.
pub mod Bounds
mod Samples
use Prim.Native.String.{◌++◌ as concat}
use lemonbot.Prelude.{
  ℕ, ◌-◌, String, ◌==◌, string_eq, leb, if◌then◌else◌, chars, take_chars, strip, rstrip,
}
use lemonbot.Pipeline.{Failure, permanent, Task, done, fails}

unfoldable pub bounded_reply : (max_reply_chars : ℕ) → String → Task String
bounded_reply max_reply_chars value =
    let text = strip value in
    if text == ""
    then fails (permanent "empty reply")
    else if leb (chars text) max_reply_chars
    then done text
    else done (concat (rstrip (take_chars (max_reply_chars - 1) text)) "…")

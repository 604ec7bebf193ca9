-- ===== src/Pipeline/Reply/Samples.antt =====
-- A reply that is too long.
use lemonbot.Prelude.{◌≡◌, refl, arith, strip, lstrip, rstrip}
use lemonbot.Pipeline.{done}
use lemonbot.Pipeline.Reply.{bounded_reply}
use lemonbot.Pipeline.Reply.Bounds.{IsBounded, bounded_reply-IsBounded}

shortened : bounded_reply 6 "  hello world " ≡ done "hello…"
unfolding bounded_reply strip lstrip rstrip
shortened = refl

bounded_reply-IsBounded_example : IsBounded 6 "hello…"
bounded_reply-IsBounded_example =
    bounded_reply-IsBounded 6 "  hello world " "hello…" (omega arith) shortened

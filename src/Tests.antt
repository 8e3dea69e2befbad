-- ===== src/Tests.antt =====
-- Concrete inputs for the theorems: what the tests share.
mod Lifecycles
mod Requests
mod Gateways
mod Learners
mod Strategies
mod Reports
mod Healings
mod Judgments
use ai_agent_immune_system.Common.{
  Bool, Floats, OrderLaws, String, String-discrete, Texts, arith, false, ite, leb, ltb, ok, true, ℕ,
  ◌*◌, ◌+◌, ◌-◌, ◌/◌,
}

-- Floats as hundredths, cut off at 0.
unfoldable pub hundredths : Floats
hundredths = record {
  Float = ℕ;
  literal = λ n d. n * 100 / d;
  of_ℕ = λ n. n * 100;
  add = λ a b. a + b;
  sub = λ a b. a - b;
  mul = λ a b. a * b / 100;
  div = λ a b. a * 100 / b;
  abs = λ a. a;
  sqrt = λ a. a;
  round = λ a n. a;
  lt = λ a b. ltb a b;
  le = λ a b. leb a b;
}

pub hundredths_laws : OrderLaws hundredths
unfolding hundredths
hundredths_laws = record {
  lt_asymm = λ a b h. ground (arith, h);
  lt_trans = λ a b c h k. ground (arith, h, k);
}

-- A matcher that knows one wildcard, the whole pattern.
unfoldable pub glob : String → String → Bool
glob text pattern =
    ite (String-discrete pattern "*") true (ite (String-discrete text pattern) true false)

-- Texts that are stripped already, and a parser that takes every text for a host under https.
unfoldable pub plain_texts : Texts
plain_texts = record {
  strip = λ s. s;
  rstrip_slash = λ s. s;
  lower = λ s. s;
  is_in = λ s t. ite (String-discrete s t) true false;
  str = λ n. "5";
  sha256 = λ n s. s;
  matches_name = λ s. true;
  urlparse = λ s. ok (record { scheme = "https"; hostname = s });
}

-- ===== src/Tests/Streams.antt =====
-- The event stream and the prices at concrete inputs.
use openclaw_managed_agents.Prelude.{
  ℕ, ◌≡◌, refl, false, none, some, List, [], ◌∷◌, arith, nat_eq, any,
}
use openclaw_managed_agents.Sse.{Text, start, cr, codes, index_of_line_end, read, parse_sse}
use openclaw_managed_agents.Sse.Chunks.{concat, parse_sse-concat}
use openclaw_managed_agents.Sse.Buffer.{HasNoCr}
use openclaw_managed_agents.Sse.Ends.{read_ends}
use openclaw_managed_agents.Pricing.{ZenMuxPricingEntry, matching_usd_entries, pick_entry}
use openclaw_managed_agents.Pricing.Tier.{IsTier, pick_entry-IsTier}
use openclaw_managed_agents.JsMap.{JsMap}

abbrev chunks : List Text
chunks = codes "event: done\nda" ∷ codes "ta: 1\nid: 7" ∷ codes "\n\ndata: 2\n" ∷ []

no_cr : (s : Text) → any (λ c. nat_eq c cr) s ≡ false → HasNoCr s
no_cr [] h = tt
no_cr (c ∷ s) h = (ground arith, no_cr s (ground arith))

parse_sse-concat_example : parse_sse chunks ≡ parse_sse (concat chunks ∷ [])
parse_sse-concat_example = parse_sse-concat chunks (no_cr (concat chunks) refl)

read_ends_example : index_of_line_end (read start (codes "data: 1\r\n\ndata: 2")).0.buffer ≡ none
read_ends_example = read_ends start (codes "data: 1\r\n\ndata: 2")

abbrev tier : ℕ → ℕ → ZenMuxPricingEntry ℕ
tier p n = record {
  price = some p;
  unit_name = some "perMTokens";
  currency = some "USD";
  prompt_tokens = some (record { unit_name = some "kTokens"; gte = some n; gt = none });
}

abbrev pricings : JsMap (List (ZenMuxPricingEntry ℕ))
pricings = ("prompt", tier 9 200 ∷ tier 3 0 ∷ tier 5 32 ∷ []) ∷ []

pick_entry_example :
    IsTier 50000
      (matching_usd_entries pricings "prompt" "perMTokens")
      (pick_entry pricings "prompt" 50000)
pick_entry_example = pick_entry-IsTier pricings "prompt" 50000

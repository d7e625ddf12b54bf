-- ===== src/Tests/Llm.antt =====
-- The choice of a language model on sample settings.
use aicrypto_trader.Base.{◌≡◌, refl, some}
use aicrypto_trader.Float.Fixed.{Fixed, fixed_float}
use aicrypto_trader.Config.{Settings, anthropic}
use aicrypto_trader.Config.Symbols.{strip}
use aicrypto_trader.Agents.Llm.{LlmAgent, split_colon, override_of, provider_named, is_name}
use aicrypto_trader.Tests.Samples.{cfg}

abbrev overridden : Settings Fixed
overridden = record cfg { quant_llm = " Anthropic : m"; anthropic_model = " m" }

splits : split_colon (strip (override_of LlmAgent.quant overridden)) ≡ some ("Anthropic ", " m")
unfolding split_colon strip
splits = refl

names_anthropic : provider_named (strip "Anthropic ") ≡ some anthropic
unfolding provider_named is_name strip
names_anthropic = refl

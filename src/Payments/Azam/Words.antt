-- ===== src/Payments/Azam/Words.antt =====
-- packages/payments/src/azam.provider.ts: `isPaid` and `isFailure`, which look for words in a status.
use babushop_wifi.Base.{Text, codes, Bool, false, ◌&&◌, ◌||◌, not, List, [], ◌∷◌, any}
use babushop_wifi.Base.Chars.{to_lower}
use babushop_wifi.Shop.Checkout.Handlers.{Provider, starts_with, is_empty}

abbrev pub paid_words : List Text
paid_words = codes "success" ∷ codes "successful" ∷ codes "completed" ∷ codes "paid" ∷ []

abbrev pub failed_words : List Text
failed_words =
    codes "fail"
    ∷ codes "failed"
    ∷ codes "cancel"
    ∷ codes "cancelled"
    ∷ codes "canceled"
    ∷ codes "expired"
    ∷ codes "declined"
    ∷ codes "reversed"
    ∷ codes "insufficient"
    ∷ codes "timeout"
    ∷ []

-- `s.includes(word)`
unfoldable pub has_word : Text → Text → Bool
unfolding starts_with
has_word [] word = is_empty word
has_word (c ∷ s) word = starts_with (c ∷ s) word || has_word s word

unfoldable pub is_paid : Text → Bool
unfolding has_word
is_paid status =
    any (has_word (to_lower status)) paid_words
    && not (any (has_word (to_lower status)) failed_words)

unfoldable pub is_failure : Text → Bool
unfolding has_word
is_failure status = any (has_word (to_lower status)) failed_words

-- The adapter as the shop sees it.
unfoldable pub azam : Provider
azam = record {
  name = codes "azam";
  confirms_out_of_band = false;
  reads_paid = is_paid;
  reads_failure = is_failure;
}

-- ===== src/Tests/Offers.antt =====
-- Codes and offers at concrete inputs.
use babushop_wifi.Base.{◌≤◌, ◌<◌, ◌≡◌, refl, arith, codes, true, none, some, [], ◌∷◌, ok, All}
use babushop_wifi.Base.Chars.{to_upper, is_space}
use babushop_wifi.Crypto.{is_symbol, normalize, generate, present}
use babushop_wifi.Crypto.Codes.{normalize-present}
use babushop_wifi.Network.Offers.{
  Offer, local_midnight, closing, offer_window_end, offer_next_start, best_offer,
}
use babushop_wifi.Network.Offers.Windows.{offer_window_end-within}
use babushop_wifi.Network.Offers.NextStart.{IsNext, offer_next_start_lem}
use babushop_wifi.Network.Offers.Best.{Origin, IsBest, best_offer_lem}
use babushop_wifi.Tests.{sixteen}

-- Codes.
typed_example : normalize (codes " abcd-efgh jklm-npqr ") ≡ ok (codes "ABCDEFGHJKLMNPQR")
unfolding normalize to_upper is_space is_symbol
typed_example = refl

normalize-present_example : normalize (present (generate (sixteen 9))) ≡ ok (generate (sixteen 9))
normalize-present_example = normalize-present (sixteen 9) refl

-- Offers: ten days of free evenings, from ten to two at night.
abbrev nights : Offer
nights = record {
  enabled = true;
  starts_at = 864000000;
  ends_at = 1728000000;
  daily_start = some (record { hour = 22; minute = 0 });
  daily_end = some (record { hour = 2; minute = 0 });
}

nights_on : offer_window_end nights 933000000 ≡ some 946800000
unfolding offer_window_end closing local_midnight
nights_on = refl

nights_off : offer_window_end nights 903600000 ≡ none
unfolding offer_window_end closing local_midnight
nights_off = refl

offer_window_end-within_example : (933000000 < 946800000) × (946800000 ≤ 1728000000)
offer_window_end-within_example =
    offer_window_end-within nights 933000000 (omega arith) (omega arith) nights_on

offer_next_start_lem_example : IsNext nights 903600000 (offer_next_start nights 903600000)
offer_next_start_lem_example =
    offer_next_start_lem nights 903600000 (omega arith) (omega arith) (omega arith) (omega arith)
      nights_off

best_offer_lem_example :
    Origin 933000000 (nights ∷ []) (best_offer (nights ∷ []) 933000000)
    × All (IsBest 933000000 (best_offer (nights ∷ []) 933000000)) (nights ∷ [])
best_offer_lem_example = best_offer_lem (nights ∷ []) 933000000

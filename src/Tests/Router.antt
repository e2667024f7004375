-- ===== src/Tests/Router.antt =====
-- The router at concrete inputs: a sold voucher lets one phone in.
use babushop_wifi.Base.{
  inl, ℕ, ◌≡◌, refl, arith, Text, codes, true, false, none, some, List, [], ◌∷◌, ok,
}
use babushop_wifi.Base.Chars.{to_upper, is_space}
use babushop_wifi.Crypto.{is_symbol, normalize}
use babushop_wifi.Shop.State.{sold, Shop, Voucher, empty_shop}
use babushop_wifi.Shop.Radius.{
  is_pairs, mac, VoucherRequest, VoucherDecision, RadiusConfig, use_voucher, chap_valid, grant_for,
  authorize_voucher, Accounting, upsert,
}
use babushop_wifi.Shop.Radius.Entry.{authorize_voucher_again, authorize_voucher_other}
use babushop_wifi.Shop.Radius.Reports.{usages, upsert_swap}
use babushop_wifi.Network.Offers.Rules.{OfferInput}
use babushop_wifi.Network.Offers.Names.{is_offer_username}
use babushop_wifi.Tests.{plain}

abbrev no_md5 : List ℕ → List ℕ
no_md5 t = 0 ∷ 0 ∷ 0 ∷ 0 ∷ 0 ∷ 0 ∷ 0 ∷ 0 ∷ 0 ∷ 0 ∷ 0 ∷ 0 ∷ 0 ∷ 0 ∷ 0 ∷ 0 ∷ []

abbrev speeds : RadiusConfig
speeds = record { live = true; default_download = 3; default_upload = 1 }

abbrev phone_request : Text → VoucherRequest
phone_request address = record {
  username = codes "a93d-efgh-jklm-npqr";
  client_mac = address;
  chap_password = 9 ∷ no_md5 [];
  challenge = [];
}

abbrev one_voucher : Voucher
one_voucher = record {
  id = 2;
  terms = record {
    package_id = 3;
    batch_id = 1;
    package_name = codes "1 Hour";
    price_tzs = 1000;
    duration_minutes = 60;
    download_mbps = some 5;
    upload_mbps = none;
    code_digest = codes "A93DEFGHJKLMNPQR";
    code_encrypted = codes "A93DEFGHJKLMNPQR";
  };
  code_mask = [];
  inventory = sold;
  reservation_id = none;
  reserved_until = none;
  created_at = 0;
  sold_at = some 0;
}

abbrev entry_shop : Shop
entry_shop = record empty_shop { next_id = 3; vouchers = one_voucher ∷ [] }

abbrev let_in : VoucherDecision
let_in = record { expires_at = 3605000; download = 5; upload = 1 }

unfoldable entered_shop : Shop
unfolding authorize_voucher grant_for chap_valid use_voucher normalize to_upper is_space is_symbol
    mac is_pairs
entered_shop =
    (authorize_voucher no_md5 plain speeds 5000 (phone_request (codes "6e-7e-f2-ca-66-74"))
      entry_shop).1

entry_example :
    authorize_voucher no_md5 plain speeds 5000
      (phone_request (codes "6e-7e-f2-ca-66-74"))
      entry_shop
    ≡ (some let_in, entered_shop)
unfolding authorize_voucher grant_for chap_valid use_voucher normalize to_upper is_space is_symbol
    mac is_pairs entered_shop
entry_example = refl

authorize_voucher_again_example :
    authorize_voucher no_md5 plain speeds 3604999
      (phone_request (codes "6e-7e-f2-ca-66-74"))
      entered_shop
    ≡ (some let_in, entered_shop)
authorize_voucher_again_example =
    authorize_voucher_again no_md5 plain speeds 5000 3604999
      (phone_request (codes "6e-7e-f2-ca-66-74")) entry_shop entry_example (omega arith)

entry_code : normalize (codes "a93d-efgh-jklm-npqr") ≡ ok (codes "A93DEFGHJKLMNPQR")
unfolding normalize to_upper is_space is_symbol
entry_code = refl

entry_address : mac (codes "6e-7e-f2-ca-66-74") ≡ ok (codes "6E:7E:F2:CA:66:74")
unfolding mac is_pairs to_upper
entry_address = refl

other_address : mac (codes "02:00:00:00:00:01") ≡ ok (codes "02:00:00:00:00:01")
unfolding mac is_pairs to_upper
other_address = refl

authorize_voucher_other_example :
    (authorize_voucher no_md5 plain speeds 6000
      (phone_request (codes "02:00:00:00:00:01"))
      entered_shop).0
    ≡ none
authorize_voucher_other_example =
    authorize_voucher_other no_md5 plain speeds 5000 6000
      (phone_request (codes "6e-7e-f2-ca-66-74")) (phone_request (codes "02:00:00:00:00:01"))
      entry_shop entry_example entry_code entry_code entry_address other_address (inl refl)

abbrev early_report : Accounting
early_report = record {
  username = codes "a93d-efgh-jklm-npqr";
  client_mac = codes "6e-7e-f2-ca-66-74";
  session_id = codes "80";
  seconds = 60;
  upload = 10;
  download = 200;
  stopped = false;
  terminate_cause = none;
}

abbrev late_report : Accounting
late_report = record early_report { seconds = 120; upload = 15; download = 900; stopped = true }

upsert_swap_example :
    usages (upsert 7000 3 (codes "nas") late_report (upsert 6000 3 (codes "nas") early_report []))
    ≡ usages (upsert 7000 3 (codes "nas") early_report (upsert 6000 3 (codes "nas") late_report []))
upsert_swap_example =
    upsert_swap 6000 7000 6000 7000 3 (codes "nas") early_report late_report [] refl

abbrev typed_offer : OfferInput
typed_offer = record {
  name = codes "Nights";
  starts_at = some 864000000;
  ends_at = some 1728000000;
  daily_start = some (codes "22:00");
  daily_end = some (codes "02:00");
  download_mbps = some 5;
  upload_mbps = some 2;
}

free_name : is_offer_username (codes "OFA-BURE-k3x9q2m7wd") ≡ true
unfolding is_offer_username
free_name = refl

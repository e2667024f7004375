-- ===== src/Tests/Counter.antt =====
-- The counter at concrete inputs: one voucher is reserved, sold and reversed.
use babushop_wifi.Base.{
  update, any, ◌==◌, ◌++◌, ℕ, ◌≡◌, refl, Text, codes, true, none, some, [], ◌∷◌, ok, err, problem,
  length, sum_of, All,
}
use babushop_wifi.Crypto.{symbol, generate}
use babushop_wifi.Shop.State.{Shop, Sale, Reversal, cash, counter, empty_shop}
use babushop_wifi.Shop.Tables.{Clock, restores, update_vouchers, is_reservable}
use babushop_wifi.Shop.Stock.{insert_voucher, insert_vouchers, generate_batch}
use babushop_wifi.Shop.Booking.{hold, book}
use babushop_wifi.Shop.Counter.{
  Quote, SaleInput, choose_stock, reserve, held_stock, sell_held, sell, sale_stock, reverse,
  counter_hold,
}
use babushop_wifi.Shop.Counter.Repeats.{IsFree, sell_again, reverse_once, reserve_quotes}
use babushop_wifi.Base.Chars.{join}
use babushop_wifi.Crypto.{present, groups_of_four}
use babushop_wifi.Shop.Counter.{Issue, issue_batch, issue_available, issue_stock, printed}
use babushop_wifi.Shop.Counter.Reprint.{issue_batch_again}
use babushop_wifi.Tests.{
  plain, minted_shop-IsSound, free_rows, shop_of, value_of, boss, minted_shop,
}

abbrev noon : Clock
noon = record { db = 2000; app = 2001 }

abbrev evening : Clock
evening = record { db = 900000; app = 900001 }

abbrev no_quote : Quote
no_quote = record { reservation = counter_hold 0 boss empty_shop; total_tzs = 0; items = [] }

abbrev no_sale : Sale
no_sale = record {
  id = 0;
  receipt_number = [];
  cashier_id = none;
  reservation_id = 0;
  total_tzs = 0;
  payment_method = cash;
  channel = counter;
  customer_name = none;
  customer_phone = none;
  notes = none;
  created_at = 0;
}

abbrev unhashed : SaleInput → Text
unhashed i = i.reservation_id ∷ []

one_quote : Quote
unfolding reserve choose_stock is_reservable hold update_vouchers restores generate_batch
    insert_vouchers insert_voucher generate symbol minted_shop
one_quote = value_of no_quote (reserve 2000 free_rows boss 3 1 minted_shop)

unfoldable reserved_shop : Shop
unfolding reserve choose_stock is_reservable hold update_vouchers restores generate_batch
    insert_vouchers insert_voucher generate symbol minted_shop
reserved_shop = shop_of (reserve 2000 free_rows boss 3 1 minted_shop)

reserve_example : reserve 2000 free_rows boss 3 1 minted_shop ≡ ok (one_quote, reserved_shop)
unfolding reserve choose_stock is_reservable hold update_vouchers restores generate_batch
    insert_vouchers insert_voucher generate symbol minted_shop one_quote reserved_shop
reserve_example = refl

reserve_quotes_example :
    (length one_quote.items ≡ 1)
    × All (IsFree minted_shop 2000 free_rows 3) one_quote.items
    × (one_quote.total_tzs ≡ sum_of (λ v. v.price_tzs) one_quote.items)
    × (one_quote.reservation.staff_id ≡ some boss.id)
    × (one_quote.reservation.expires_at ≡ 302000)
    × (reserved_shop.reservations ≡ minted_shop.reservations ++ one_quote.reservation ∷ [])
    × (reserved_shop.vouchers
        ≡ update
            (λ v. any (λ x. x.id == v.id) one_quote.items)
            (λ v. record v {
              reservation_id = some one_quote.reservation.id;
              reserved_until = some 302000;
            })
            minted_shop.vouchers)
reserve_quotes_example = reserve_quotes 2000 free_rows boss 3 1 minted_shop reserve_example

abbrev cash_input : SaleInput
cash_input = record {
  reservation_id = 4;
  cash_received = true;
  customer_name = some (codes "Asha");
  customer_phone = none;
  notes = some [];
}

cash_row : Sale
unfolding sell sell_held held_stock book reserve choose_stock is_reservable hold update_vouchers
    restores generate_batch insert_vouchers insert_voucher generate symbol minted_shop reserved_shop
cash_row =
    value_of no_sale (sell unhashed noon boss (codes "a1") cash_input (codes "k") reserved_shop)

unfoldable sold_shop : Shop
unfolding sell sell_held held_stock book reserve choose_stock is_reservable hold update_vouchers
    restores generate_batch insert_vouchers insert_voucher generate symbol minted_shop reserved_shop
sold_shop = shop_of (sell unhashed noon boss (codes "a1") cash_input (codes "k") reserved_shop)

sell_example :
    sell unhashed noon boss (codes "a1") cash_input (codes "k") reserved_shop
    ≡ ok (cash_row, sold_shop)
unfolding sell sell_held held_stock book reserve choose_stock is_reservable hold update_vouchers
    restores generate_batch insert_vouchers insert_voucher generate symbol minted_shop reserved_shop
    cash_row sold_shop
sell_example = refl

sell_again_example :
    sell unhashed evening boss (codes "b2") cash_input (codes "k") sold_shop
    ≡ ok (cash_row, sold_shop)
sell_again_example =
    sell_again unhashed noon evening boss (codes "a1") (codes "b2") cash_input (codes "k")
      reserved_shop sell_example

abbrev undo : Reversal
undo = record { sale_id = 5; staff_id = 7; reason = codes "wrong package" }

unfoldable reversed_shop : Shop
unfolding reverse sale_stock sell sell_held held_stock book reserve choose_stock is_reservable hold
    update_vouchers restores generate_batch insert_vouchers insert_voucher generate symbol
    minted_shop reserved_shop sold_shop
reversed_shop = shop_of (reverse boss 5 (codes "wrong package") sold_shop)

reverse_example : reverse boss 5 (codes "wrong package") sold_shop ≡ ok (undo, reversed_shop)
unfolding reverse sale_stock sell sell_held held_stock book reserve choose_stock is_reservable hold
    update_vouchers restores generate_batch insert_vouchers insert_voucher generate symbol
    minted_shop reserved_shop sold_shop reversed_shop
reverse_example = refl

reverse_once_example :
    reverse boss 5 (codes "again") reversed_shop ≡ err (problem 409 "Sale already reversed")
reverse_once_example =
    reverse_once boss boss 5 (codes "wrong package") (codes "again") sold_shop reverse_example

-- The batch is printed twice.
abbrev no_issue : Issue
no_issue = record { issued = 0; total_tzs = 0; items = [] }

abbrev show_none : ℕ → Text
show_none id = []

print_answer : Issue
unfolding issue_batch issue_available issue_stock book hold update_vouchers restores generate_batch
    insert_vouchers insert_voucher generate symbol minted_shop present groups_of_four join
print_answer = value_of no_issue (issue_batch plain show_none 2000 boss (codes "a1") 1 minted_shop)

unfoldable printed_shop : Shop
unfolding issue_batch issue_available issue_stock book hold update_vouchers restores generate_batch
    insert_vouchers insert_voucher generate symbol minted_shop present groups_of_four join
printed_shop = shop_of (issue_batch plain show_none 2000 boss (codes "a1") 1 minted_shop)

print_example :
    issue_batch plain show_none 2000 boss (codes "a1") 1 minted_shop
    ≡ ok (print_answer, printed_shop)
unfolding issue_batch issue_available issue_stock book hold update_vouchers restores generate_batch
    insert_vouchers insert_voucher generate symbol minted_shop print_answer printed_shop present
    groups_of_four join
print_example = refl

issue_batch_again_example :
    issue_batch plain show_none 2000 boss (codes "a1") 1 printed_shop
    ≡ ok (printed plain boss 1 0 0 printed_shop)
issue_batch_again_example =
    issue_batch_again show_none 2000 boss (codes "a1") plain 1 minted_shop print_example
      minted_shop-IsSound

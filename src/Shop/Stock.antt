-- ===== src/Shop/Stock.antt =====
-- packages/database/src/sales.ts, `generateBatch`: vouchers minted from a package.
pub mod Soundness
use babushop_wifi.Base.{
  ℕ, zero, suc, ◌-◌, Text, codes, Bool, ◌&&◌, List, [], ◌∷◌, ◌++◌, Option, none, some, ◌==◌, leb,
  if◌then◌else◌, any, find, length, drop, Result, ok, err, problem, ◌>>=◌, ◌>>◌, require_value,
  text_eq,
}
use babushop_wifi.Crypto.{Cipher, generate}
use babushop_wifi.Shop.State.{Shop, Staff, Package, Batch, Terms, Voucher, available}
use babushop_wifi.Shop.Tables.{audit, require_row}

-- The last four characters.
abbrev pub tail4 : Text → Text
tail4 code = drop (length code - 4) code

-- '••••-••••-••••-'+code.slice(-4)
abbrev pub mask : Text → Text
mask code = codes "••••-••••-••••-" ++ tail4 code

abbrev pub terms_of : Package → ℕ → Text → Text → Terms
terms_of p batch_id digest encrypted = record {
  package_id = p.id;
  batch_id = batch_id;
  package_name = p.name;
  price_tzs = p.price_tzs;
  duration_minutes = p.duration_minutes;
  download_mbps = p.download_mbps;
  upload_mbps = p.upload_mbps;
  code_digest = digest;
  code_encrypted = encrypted;
}

pub record BatchInput : Type 0 where
  pub package_id : ℕ
  pub quantity : ℕ
  pub label : Option Text

abbrev pub text_or : Option Text → Text → Text
text_or none d = d
text_or (some t) d = t

-- The random draws of a call: `bytes i` for the code of the i-th voucher, `nonce i` for its cipher.
pub record Draws : Type 0 where
  pub bytes : ℕ → List ℕ
  pub nonce : ℕ → Text

abbrev pub minted : Cipher → Draws → ℕ → Package → ℕ → ℕ → Shop → Voucher
minted c draws now p batch_id i s =
    let code = generate (draws.bytes i) in
    record {
      id = s.next_id;
      terms = terms_of p batch_id (c.digest code) (c.encrypt (draws.nonce i) code);
      code_mask = mask code;
      inventory = available;
      reservation_id = none;
      reserved_until = none;
      created_at = now;
      sold_at = none;
    }

-- One insert of the loop; wifi.vouchers.code_digest is unique.
unfoldable pub insert_voucher : Voucher → Shop → Result Shop
insert_voucher v s =
    if any (λ w. text_eq w.code_digest v.code_digest) s.vouchers
    then err (problem 500 "duplicate key value violates unique constraint")
    else ok (record s { next_id = suc s.next_id; vouchers = s.vouchers ++ (v ∷ []) })

-- The loop of `generateBatch`: `left` rounds from the round `i`.
unfoldable pub insert_vouchers : Cipher → Draws → ℕ → Package → ℕ → ℕ → ℕ → Shop → Result Shop
insert_vouchers c draws now p batch_id zero i s = ok s
insert_vouchers c draws now p batch_id (suc left) i s = do
  s' ← insert_voucher (minted c draws now p batch_id i s) s
  insert_vouchers c draws now p batch_id left (suc i) s'

abbrev pub batch_of : Package → Staff → BatchInput → Shop → Batch
batch_of p staff input s = record {
  id = s.next_id;
  package_id = p.id;
  label = text_or input.label [];
  quantity = input.quantity;
  created_by = staff.id;
}

unfoldable pub generate_batch :
    Cipher → Draws → ℕ → ℕ → Staff → BatchInput → Shop → Result (Batch × Shop)
generate_batch c draws now max_batch staff input s = do
  p ←
      require_row (find (λ p. p.id == input.package_id && p.active) s.packages) 400
        "Choose an active package"
  require_value (leb input.quantity max_batch) 400 "Batch exceeds configured maximum"
  let batch = batch_of p staff input s
  let opened = record s { next_id = suc s.next_id; batches = s.batches ++ (batch ∷ []) }
  filled ← insert_vouchers c draws now p batch.id input.quantity 0 opened
  ok (batch, audit (some staff.id) "BATCH_GENERATED" (some batch.id) filled)

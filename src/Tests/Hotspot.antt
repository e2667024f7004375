-- ===== src/Tests/Hotspot.antt =====
-- VIP devices and hotspot pages at concrete inputs: a router of one stale binding, and one of a page.
use babushop_wifi.Base.{
  ◌≡◌, ◌⊎◌, refl, inr, arith, Text, codes, true, false, not, List, [], ◌∷◌, ◌++◌, Option, none,
  some, select, any, done, text_eq,
}
use babushop_wifi.Network.Bindings.{
  Binding, Wanted, clean_name, vip_comment, vip_id_of, sort_bindings, reconcile, is_healthy,
}
use babushop_wifi.Network.Bindings.Comments.{IsPortalId, vip_id_of-vip_comment}
use babushop_wifi.Network.Bindings.Converges.{added, entries}
use babushop_wifi.Network.Bindings.Carried.{reconcile_settles}
use babushop_wifi.Vip.Devices.{deleted, Rest, Portal, is_tag_of}
use babushop_wifi.Vip.Handlers.{remove_vip}
use babushop_wifi.Vip.Removal.{IsLawful, remove_vip_clears}
use babushop_wifi.Pages.Files.{RouterFile, FileStore, same_text, replace_file}
use babushop_wifi.Pages.Kept.{IsLawfulStore, replace_file_keeps, replace_file_stores}

abbrev one_id : Text
one_id = codes "0f8fad5b-d9cb-469f-a165-70867728950e"

one_id-IsPortalId : IsPortalId one_id
one_id-IsPortalId = record { size = refl; chars = refl; ends = refl }

vip_id_of-vip_comment_example : vip_id_of (vip_comment one_id (codes "Owner phone!")) ≡ some one_id
vip_id_of-vip_comment_example =
    vip_id_of-vip_comment one_id (codes "Owner phone!") one_id-IsPortalId

abbrev one_device : Wanted
one_device = record { id = one_id; mac = codes "6E:7E:F2:CA:66:74"; name = codes "Owner phone" }

-- A binding of the right device, switched off on the router, and one made by hand.
abbrev switched_off : Binding
switched_off = record {
  id = codes "*1";
  mac_address = codes "6E:7E:F2:CA:66:74";
  type = codes "bypassed";
  comment = codes "JIACHIE-VIP:0f8fad5b-d9cb-469f-a165-70867728950e Owner";
  disabled = codes "true";
}

abbrev by_hand : Binding
by_hand = record {
  id = codes "*2";
  mac_address = codes "00:11:22:33:44:55";
  type = codes "bypassed";
  comment = codes "printer";
  disabled = [];
}

abbrev next_id : Wanted → Text
next_id w = codes "*9"

reconcile_settles_example :
    reconcile (one_device ∷ []) (by_hand ∷ added next_id one_device ∷ []) ≡ record {
      add = [];
      remove = [];
      kept =
          (reconcile (one_device ∷ []) (switched_off ∷ by_hand ∷ [])).kept
          ++ entries next_id (reconcile (one_device ∷ []) (switched_off ∷ by_hand ∷ [])).add;
    }
unfolding reconcile sort_bindings is_healthy vip_id_of added vip_comment clean_name
reconcile_settles_example =
    reconcile_settles next_id (one_device ∷ []) (switched_off ∷ by_hand ∷ [])
      (by_hand ∷ added next_id one_device ∷ []) (tt, tt) ((one_id-IsPortalId, refl), tt) refl

-- A router that is its list of bindings.
abbrev listing_router : Rest (List Binding)
listing_router = record {
  get = λ bs. (done bs, bs);
  put = λ mac comment bs. (done none, bs);
  delete = λ id bs. (deleted, select (λ b. not (text_eq b.id id)) bs);
}

listing_router-IsLawful : IsLawful listing_router (λ bs. bs)
listing_router-IsLawful = record {
  listing = λ r bs h. ground arith;
  listing_keeps = λ r. refl;
  deletion = λ id r. inr refl;
}

abbrev one_portal : Portal (List Binding)
one_portal = record {
  devices =
      record {
        id = one_id;
        mac = codes "6E:7E:F2:CA:66:74";
        name = codes "Owner phone";
        note = none;
        enabled = true;
        router_binding_id = some (codes "*1");
        synced_at = none;
        sync_error = none;
      }
      ∷ [];
  audit = [];
  router = switched_off ∷ by_hand ∷ [];
}

remove_vip_clears_example :
    ((remove_vip listing_router one_id one_portal).1.devices ≡ one_portal.devices)
    ⊎ (any (is_tag_of one_id) (remove_vip listing_router one_id one_portal).1.router ≡ false)
remove_vip_clears_example =
    remove_vip_clears listing_router (λ bs. bs) listing_router-IsLawful one_id one_portal

-- A router that holds the text of one page.
abbrev login_file : RouterFile
login_file = record { id = codes "*a"; name = codes "hotspot/login.html" }

abbrev found_in : Option Text → Option RouterFile
found_in none = none
found_in (some t) = some login_file

abbrev one_page : FileStore (Option Text)
one_page = record {
  find_file = λ name s. (done (found_in s), s);
  contents = λ f s. (done s, s);
  write = λ name text existing s. (done tt, some text);
}

abbrev page_view : Option Text → Text → Option Text
page_view s name = s

one_page-IsLawfulStore : IsLawfulStore one_page page_view
one_page-IsLawfulStore = record {
  search_keeps = λ name s. refl;
  read_keeps = λ f s. refl;
  absent = λ name s h. ground arith;
  shown = λ name s found h. ground arith;
}

replace_file_keeps_example :
    (page_view
        (replace_file one_page
          (λ t. done tt)
          (codes "hotspot/login.html")
          (codes "new")
          []
          (some (codes "old"))).2
      ≡ page_view (some (codes "old")))
    ⊎ (some (codes "old") ≡ none)
    ⊎ ((previous : Text) × (some (codes "old") ≡ some previous)
        × ((replace_file one_page
              (λ t. done tt)
              (codes "hotspot/login.html")
              (codes "new")
              []
              (some (codes "old"))).1
            ≡ previous ∷ []))
replace_file_keeps_example =
    replace_file_keeps one_page page_view one_page-IsLawfulStore (λ t. done tt)
      (codes "hotspot/login.html") (codes "new") [] (some (codes "old"))

replace_file_stores_example :
    same_text
      (replace_file one_page
        (λ t. done tt)
        (codes "hotspot/login.html")
        (codes "new")
        []
        (some (codes "old"))).2
      (codes "new")
    ≡ true
unfolding replace_file
replace_file_stores_example =
    replace_file_stores one_page page_view one_page-IsLawfulStore (λ t. done tt)
      (codes "hotspot/login.html") (codes "new") [] (some (codes "old")) {b = true}
      {p = some (codes "old")} refl

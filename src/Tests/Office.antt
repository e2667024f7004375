-- ===== src/Tests/Office.antt =====
-- Planning, inviting and the reports of free sessions at concrete inputs.
use babushop_wifi.Base.{◌≡◌, Text, codes, true, List, [], ◌∷◌, none, some, ◌⊎◌}
use babushop_wifi.Vip.Handlers.{Reply, answered}
use babushop_wifi.Network.Discovery.{access_point, dhcp}
use babushop_wifi.Sites.Records.{SiteDevice, seen, Plan, draft, Sites}
use babushop_wifi.Sites.Handlers.{plan}
use babushop_wifi.Accounts.Invites.{InviteEnv, link_of, Services, Personnel, Invitation, invite}
use babushop_wifi.Accounts.Delivered.{IsInvited, invite_lem}
use babushop_wifi.FreeOffers.Records.{OfferBook}
use babushop_wifi.FreeOffers.Accounting.{OfferReport, record_offer_accounting}
use babushop_wifi.FreeOffers.Sessions.{AreGrown, record_offer_accounting-AreGrown}

abbrev eap : SiteDevice
eap = record {
  id = 2;
  site_id = 1;
  mac_address = codes "8C:90:2D:93:51:7E";
  ip_address = some (codes "192.168.88.20");
  hostname = none;
  model = none;
  vendor = none;
  type = access_point;
  interface = some (codes "ether4");
  dhcp_status = none;
  source = dhcp;
  status = seen;
  last_seen_at = 5;
  approved = true;
}

abbrev old_draft : Plan
old_draft = record { id = 3; site_id = 1; digest = codes "aa"; status = draft }

abbrev one_site : Sites
one_site = record {
  next_id = 4;
  sites =
      record {
        id = 1;
        site_interface = codes "wg-site";
        lan_cidrs = [];
        preflight = [];
        preflight_captured_at = none;
        omada_inform_url = none;
        last_discovered_at = none;
      }
      ∷ [];
  devices = eap ∷ [];
  plans = old_draft ∷ [];
  tunnels = [];
  audit = [];
}

abbrev drafted : Reply Plan × Sites
unfolding plan
drafted = plan (λ ds. answered (codes "bb")) 1 one_site

-- A service that makes the account `u1`, beside a mail service that works.
abbrev office : Services (List Text)
office = record {
  generate_link =
      λ email name accounts. (link_of (codes "u1") (codes "link"), codes "u1" ∷ accounts);
  delete_user = λ id accounts. [];
  send_mail = λ email link. none;
  is_email = λ t. true;
}

abbrev empty_office : Personnel (List Text)
empty_office = record { profiles = []; audit = []; accounts = [] }

abbrev asha : Invitation
asha = record { email = codes "asha@shop.tz"; display_name = codes "Asha"; role = codes "SALES" }

abbrev all_set : InviteEnv
all_set = record { has_key = true; has_mailer = true; has_origin = true }

invite_lem_example :
    ((invite office all_set (codes "boss") 9 asha empty_office).1.profiles ≡ empty_office.profiles)
    ⊎ IsInvited office
        (codes "boss")
        9
        empty_office
        (invite office all_set (codes "boss") 9 asha empty_office).1
unfolding invite
invite_lem_example = invite_lem office all_set (codes "boss") 9 asha empty_office

abbrev phone : Text
phone = codes "AA:BB:CC:00:11:22"

abbrev free_book : OfferBook
free_book = record {
  next_id = 2;
  offers = [];
  logins =
      record { offer_id = 1; client_mac = phone; username = some (codes "T-1"); created_at = 5 }
      ∷ [];
  sessions =
      record {
        offer_id = 1;
        client_mac = phone;
        username = codes "T-1";
        nas = codes "nas";
        session_id = codes "80";
        session_seconds = 60;
        upload_bytes = 10;
        download_bytes = 20;
        last_seen_at = 6;
        stopped_at = none;
        terminate_cause = none;
      }
      ∷ [];
  audit = [];
}

abbrev free_stop : OfferReport
free_stop = record {
  username = codes "T-1";
  session_id = codes "80";
  is_stop = true;
  seconds = 90;
  upload = 8;
  download = 30;
  terminate_cause = none;
}

record_offer_accounting-AreGrown_example :
    AreGrown free_book.sessions
      (record_offer_accounting 7 free_stop phone (codes "nas") free_book).1.sessions
unfolding record_offer_accounting
record_offer_accounting-AreGrown_example =
    record_offer_accounting-AreGrown 7 free_stop phone (codes "nas") free_book

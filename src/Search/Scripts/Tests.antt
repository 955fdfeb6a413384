-- ===== src/Search/Scripts/Tests.antt =====
-- docs/search: a search of the site.
use async_fw.Base.{◌≡◌, refl, true, false, map, [], arith}
use async_fw.Base.Int.{pos}
use async_fw.Base.Text.{codes, text_eq, starts_with}
use async_fw.Cookie.{Browser}
use async_fw.Search.Encode.{hex, hex_digit, convert_to_id}
use async_fw.Search.Results.{strip_leading, strip_trailing}
use async_fw.Search.Results.Focus.{is_shown}
use async_fw.Search.Box.{Box, new_search_box}
use async_fw.Search.Box.Run.{Measures, returned, search_now, script_loaded}
use async_fw.Search.Scripts.{find_entries, site_of, site_sections, site_results}
use async_fw.Search.Scripts.Entry.{found}
use async_fw.Search.Scripts.Enums.{enums_3}
use async_fw.Search.Scripts.Names.{lower_char, entry_name}
use async_fw.Search.Scripts.Shown.{site_entry_shown}

abbrev chrome : Browser
chrome = record { chrome = true; local = []; session = []; jar = [] }

abbrev measures : Measures
measures = record {
  box_x = pos 900;
  box_y = pos 10;
  results_width = pos 300;
  body_width = pos 1000;
  body_height = pos 300;
}

-- Section 6 is that of the enumerations.
abbrev asking : Box
asking = record (new_search_box chrome) { search_index = 6; field_value = codes " MesS " }

message_type_name : entry_name (found "messagetype_0" "MessageType" []) ≡ codes "messagetype"
unfolding entry_name
message_type_name = refl

site_entry_shown_example :
    let site = site_of (λ file. []) (map lower_char) [] [] in
    (asked : Box) × (search_now site measures asking ≡ returned asked)
    × (let c = script_loaded site measures 0 asked in
        (is_shown c.results.rows 0 ≡ true) × (c.results_shown ≡ true))
unfolding site_sections site_results hex_digit enums_3 strip_leading strip_trailing text_eq
    starts_with entry_name find_entries hex
site_entry_shown_example =
    site_entry_shown (λ file. []) (map lower_char) [] [] measures asking _ 3 0 enums_3 _
      (λ t h. refl) refl (omega arith) refl refl refl (omega arith) refl

-- The title "Core Architecture & Components", typed as it is shown, misses the entry of its page:
-- the id leaves the "&" out, and the search spells it.
typed_title_is_missed :
    starts_with
      (convert_to_id (codes "core architecture & components"))
      (codes "core_20architecture_20components_2")
    ≡ false
unfolding starts_with convert_to_id hex hex_digit
typed_title_is_missed = refl

-- ===== src/Search/Scripts/Entry.antt =====
-- docs/search: how a script of results writes its entries.
use Prim.Native.String.{String}
use async_fw.Base.{Bool, List}
use async_fw.Base.Text.{codes}
use async_fw.Search.Results.{Hit, Found}

abbrev pub hit : String → Bool → String → Hit
hit url in_frame scope = record { url = codes url; in_frame = in_frame; scope = codes scope }

abbrev pub found : String → String → List Hit → Found
found id label hits = record { id = codes id; label = codes label; hits = hits }

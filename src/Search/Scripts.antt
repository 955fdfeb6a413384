-- ===== src/Search/Scripts.antt =====
-- docs/search/searchdata.js and the scripts of results of all its sections but two: `all`, which
-- repeats the others, and `functions`.
pub mod Names
pub mod Shown
mod Tests
mod Entry
mod ClassesA
mod ClassesB
mod ClassesC
mod Files
mod VariablesA
mod VariablesB
mod Typedefs
mod Enums
mod EnumvaluesA
mod EnumvaluesB
mod EnumvaluesC
mod Groups
mod PagesA
mod PagesB
mod PagesC
use Prim.Native.String.{String}
use async_fw.Base.{Option, none, some, List, [], ◌∷◌, ◌++◌, if◌then◌else◌}
use async_fw.Base.Text.{Text, codes, text_eq}
use async_fw.Search.Results.{Found}
use async_fw.Search.Box.{Section, Site}
use ClassesA.{classes_0, classes_1, classes_2}
use ClassesB.{classes_3, classes_4}
use ClassesC.{
  classes_5, classes_6, classes_7, classes_8, classes_9, classes_a, classes_b, classes_c, classes_d,
}
use Files.{
  files_0, files_1, files_2, files_3, files_4, files_5, files_6, files_7, files_8, files_9, files_a,
  files_b, files_c,
}
use VariablesA.{
  variables_0, variables_1, variables_2, variables_3, variables_4, variables_5, variables_6,
  variables_7, variables_8,
}
use VariablesB.{variables_9, variables_a, variables_b, variables_c, variables_d, variables_e}
use Typedefs.{typedefs_0, typedefs_1, typedefs_2}
use Enums.{enums_0, enums_1, enums_2, enums_3, enums_4, enums_5, enums_6, enums_7, enums_8, enums_9}
use EnumvaluesA.{enumvalues_0, enumvalues_1, enumvalues_2}
use EnumvaluesB.{
  enumvalues_3, enumvalues_4, enumvalues_5, enumvalues_6, enumvalues_7, enumvalues_8, enumvalues_9,
}
use EnumvaluesC.{enumvalues_a, enumvalues_b, enumvalues_c, enumvalues_d, enumvalues_e}
use Groups.{groups_0, groups_1, groups_2}
use PagesA.{
  pages_0, pages_1, pages_2, pages_3, pages_4, pages_5, pages_6, pages_7, pages_8, pages_9, pages_a,
  pages_b,
}
use PagesB.{pages_c, pages_d, pages_e, pages_f, pages_10, pages_11, pages_12, pages_13, pages_14}
use PagesC.{pages_15, pages_16}

abbrev section : String → String → String → Section
section content name label = record {
  content = codes content;
  name = codes name;
  label = codes label;
}

unfoldable pub site_sections : List Section
site_sections =
    section "123456789abcdefghijklmnopqrstuvw~" "all" "All"
    ∷ section "acdfhilmprstvw" "classes" "Classes"
    ∷ section "acdfhilmprstv" "files" "Files"
    ∷ section "acdefghijklmnopqrstuvw~" "functions" "Functions"
    ∷ section "cdfhilmnoprstuw" "variables" "Variables"
    ∷ section "alp" "typedefs" "Typedefs"
    ∷ section "ceimopqrst" "enums" "Enumerations"
    ∷ section "acdefilmnqrstuw" "enumvalues" "Enumerator"
    ∷ section "ach" "groups" "Modules"
    ∷ section "123456789abcdflmnoprstw" "pages" "Pages"
    ∷ []

classes_scripts : List (String × List Found)
unfolding classes_0 classes_1 classes_2 classes_3 classes_4 classes_5 classes_6 classes_7 classes_8
    classes_9 classes_a classes_b classes_c classes_d
classes_scripts =
    ("search/classes_0.js", classes_0)
    ∷ ("search/classes_1.js", classes_1)
    ∷ ("search/classes_2.js", classes_2)
    ∷ ("search/classes_3.js", classes_3)
    ∷ ("search/classes_4.js", classes_4)
    ∷ ("search/classes_5.js", classes_5)
    ∷ ("search/classes_6.js", classes_6)
    ∷ ("search/classes_7.js", classes_7)
    ∷ ("search/classes_8.js", classes_8)
    ∷ ("search/classes_9.js", classes_9)
    ∷ ("search/classes_a.js", classes_a)
    ∷ ("search/classes_b.js", classes_b)
    ∷ ("search/classes_c.js", classes_c)
    ∷ ("search/classes_d.js", classes_d)
    ∷ []

files_scripts : List (String × List Found)
unfolding files_0 files_1 files_2 files_3 files_4 files_5 files_6 files_7 files_8 files_9 files_a
    files_b files_c
files_scripts =
    ("search/files_0.js", files_0)
    ∷ ("search/files_1.js", files_1)
    ∷ ("search/files_2.js", files_2)
    ∷ ("search/files_3.js", files_3)
    ∷ ("search/files_4.js", files_4)
    ∷ ("search/files_5.js", files_5)
    ∷ ("search/files_6.js", files_6)
    ∷ ("search/files_7.js", files_7)
    ∷ ("search/files_8.js", files_8)
    ∷ ("search/files_9.js", files_9)
    ∷ ("search/files_a.js", files_a)
    ∷ ("search/files_b.js", files_b)
    ∷ ("search/files_c.js", files_c)
    ∷ []

variables_scripts : List (String × List Found)
unfolding variables_0 variables_1 variables_2 variables_3 variables_4 variables_5 variables_6
    variables_7 variables_8 variables_9 variables_a variables_b variables_c variables_d variables_e
variables_scripts =
    ("search/variables_0.js", variables_0)
    ∷ ("search/variables_1.js", variables_1)
    ∷ ("search/variables_2.js", variables_2)
    ∷ ("search/variables_3.js", variables_3)
    ∷ ("search/variables_4.js", variables_4)
    ∷ ("search/variables_5.js", variables_5)
    ∷ ("search/variables_6.js", variables_6)
    ∷ ("search/variables_7.js", variables_7)
    ∷ ("search/variables_8.js", variables_8)
    ∷ ("search/variables_9.js", variables_9)
    ∷ ("search/variables_a.js", variables_a)
    ∷ ("search/variables_b.js", variables_b)
    ∷ ("search/variables_c.js", variables_c)
    ∷ ("search/variables_d.js", variables_d)
    ∷ ("search/variables_e.js", variables_e)
    ∷ []

typedefs_scripts : List (String × List Found)
unfolding typedefs_0 typedefs_1 typedefs_2
typedefs_scripts =
    ("search/typedefs_0.js", typedefs_0)
    ∷ ("search/typedefs_1.js", typedefs_1)
    ∷ ("search/typedefs_2.js", typedefs_2)
    ∷ []

enums_scripts : List (String × List Found)
unfolding enums_0 enums_1 enums_2 enums_3 enums_4 enums_5 enums_6 enums_7 enums_8 enums_9
enums_scripts =
    ("search/enums_0.js", enums_0)
    ∷ ("search/enums_1.js", enums_1)
    ∷ ("search/enums_2.js", enums_2)
    ∷ ("search/enums_3.js", enums_3)
    ∷ ("search/enums_4.js", enums_4)
    ∷ ("search/enums_5.js", enums_5)
    ∷ ("search/enums_6.js", enums_6)
    ∷ ("search/enums_7.js", enums_7)
    ∷ ("search/enums_8.js", enums_8)
    ∷ ("search/enums_9.js", enums_9)
    ∷ []

enumvalues_scripts : List (String × List Found)
unfolding enumvalues_0 enumvalues_1 enumvalues_2 enumvalues_3 enumvalues_4 enumvalues_5 enumvalues_6
    enumvalues_7 enumvalues_8 enumvalues_9 enumvalues_a enumvalues_b enumvalues_c enumvalues_d
    enumvalues_e
enumvalues_scripts =
    ("search/enumvalues_0.js", enumvalues_0)
    ∷ ("search/enumvalues_1.js", enumvalues_1)
    ∷ ("search/enumvalues_2.js", enumvalues_2)
    ∷ ("search/enumvalues_3.js", enumvalues_3)
    ∷ ("search/enumvalues_4.js", enumvalues_4)
    ∷ ("search/enumvalues_5.js", enumvalues_5)
    ∷ ("search/enumvalues_6.js", enumvalues_6)
    ∷ ("search/enumvalues_7.js", enumvalues_7)
    ∷ ("search/enumvalues_8.js", enumvalues_8)
    ∷ ("search/enumvalues_9.js", enumvalues_9)
    ∷ ("search/enumvalues_a.js", enumvalues_a)
    ∷ ("search/enumvalues_b.js", enumvalues_b)
    ∷ ("search/enumvalues_c.js", enumvalues_c)
    ∷ ("search/enumvalues_d.js", enumvalues_d)
    ∷ ("search/enumvalues_e.js", enumvalues_e)
    ∷ []

groups_scripts : List (String × List Found)
unfolding groups_0 groups_1 groups_2
groups_scripts =
    ("search/groups_0.js", groups_0)
    ∷ ("search/groups_1.js", groups_1)
    ∷ ("search/groups_2.js", groups_2)
    ∷ []

pages_scripts : List (String × List Found)
unfolding pages_0 pages_1 pages_2 pages_3 pages_4 pages_5 pages_6 pages_7 pages_8 pages_9 pages_a
    pages_b pages_c pages_d pages_e pages_f pages_10 pages_11 pages_12 pages_13 pages_14 pages_15
    pages_16
pages_scripts =
    ("search/pages_0.js", pages_0)
    ∷ ("search/pages_1.js", pages_1)
    ∷ ("search/pages_2.js", pages_2)
    ∷ ("search/pages_3.js", pages_3)
    ∷ ("search/pages_4.js", pages_4)
    ∷ ("search/pages_5.js", pages_5)
    ∷ ("search/pages_6.js", pages_6)
    ∷ ("search/pages_7.js", pages_7)
    ∷ ("search/pages_8.js", pages_8)
    ∷ ("search/pages_9.js", pages_9)
    ∷ ("search/pages_a.js", pages_a)
    ∷ ("search/pages_b.js", pages_b)
    ∷ ("search/pages_c.js", pages_c)
    ∷ ("search/pages_d.js", pages_d)
    ∷ ("search/pages_e.js", pages_e)
    ∷ ("search/pages_f.js", pages_f)
    ∷ ("search/pages_10.js", pages_10)
    ∷ ("search/pages_11.js", pages_11)
    ∷ ("search/pages_12.js", pages_12)
    ∷ ("search/pages_13.js", pages_13)
    ∷ ("search/pages_14.js", pages_14)
    ∷ ("search/pages_15.js", pages_15)
    ∷ ("search/pages_16.js", pages_16)
    ∷ []

unfoldable pub site_results : List (String × List Found)
unfolding classes_scripts files_scripts variables_scripts typedefs_scripts enums_scripts
    enumvalues_scripts groups_scripts pages_scripts
site_results =
    classes_scripts
    ++ (files_scripts
        ++ (variables_scripts
            ++ (typedefs_scripts
                ++ (enums_scripts ++ (enumvalues_scripts ++ (groups_scripts ++ (pages_scripts)))))))

unfoldable pub find_entries : List (String × List Found) → Text → Option (List Found)
unfolding text_eq
find_entries [] file = none
find_entries ((name, fs) ∷ scripts) file =
    let others = find_entries scripts file in if text_eq (codes name) file then some fs else others

abbrev pub entries_or : List Found → Option (List Found) → List Found
entries_or other none = other
entries_or other (some fs) = fs

-- The site of docs/: `rest` is what the scripts of the two other sections define.
abbrev pub site_of : (Text → List Found) → (Text → Text) → Text → Text → Site
site_of rest lower from_url date = record {
  sections = site_sections;
  results_path = codes "search/";
  files = λ file. entries_or (rest file) (find_entries site_results file);
  lower = lower;
  from_url = from_url;
  date = date;
}

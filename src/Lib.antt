-- ===== src/Lib.antt =====
-- The browser code of the AsyncFw documentation site.
--
-- The repository holds a C++ framework and, under docs/, the site that documents it. The
-- JavaScript of the repository is the code of that site: the navigation tree, its panels and page
-- outlines, the search, the settings, and the tables that the pages load. This library models that
-- code. The C++ framework is not modelled.
--
-- How the parts interact. docs/navtree.js builds a page: `initNavTree` shows the tree, finds the
-- place of the page in the index and opens the tree there, and `initResizable` lays out the panels
-- beside it. Both keep their settings through `Cookie` of docs/cookie.js, as does the search box
-- of docs/search/search.js, which loads one script of results for each section and first letter.
-- `initPageToc` makes the outline that stands in one of the panels, and marks what is in view.
--
-- Base and its children: the names that the others share; Base/Text has strings as lists of UTF-16
-- code units with `indexOf`, `lastIndexOf` and `substring`, Base/Int whole numbers with a sign,
-- Base/Spaces the blanks of the regular expressions.
--
-- Cookie is `Cookie` of docs/cookie.js (`readSetting`, `writeSetting`, `eraseSetting`); Cookie/Jar
-- is the browser below it, web storage and `document.cookie`. Cookie/Laws has the storage of
-- Chrome, Cookie/RoundTrip the cookies of the other browsers. Cookie/Kept is an interface, of a
-- browser that keeps a text for the session, with Chrome as an instance; the tree uses it.
--
-- Resizable is `initResizable` of docs/navtree.js: `constrainPanelWidths`, `updateWidths`,
-- `resizeWidth`, `restoreWidth`, `resizeHeight` and `showHideNavBar`, on a record of what they
-- write, with what they measure in `Host`. Resizable/Drag has the handlers as steps, on a state of
-- the page and the last size of the window; Resizable/Settings has the texts of the settings and
-- `parseInt`, and Resizable/Restore is a page that follows another.
--
-- NavTree is `initNavTree`. NavTree/Paths has its functions on addresses, NavTree/Entries the form
-- of the tables and NavTree/Site the tables themselves: `NAVTREE` and `NAVTREEINDEX` of
-- docs/navtreedata.js, the three docs/navtreeindex files, and the scripts of docs/ that the tree
-- loads on demand. NavTree/Index is the search of the index files by `gotoUrl`, NavTree/Goto that
-- search with the fallbacks of `gotoUrl` and `gotoNode`; NavTree/Walk is the plain walk through
-- the tables, which is what the tree should show; NavTree/Tree has the nodes, `getNode`,
-- `expandNode` and `showNode`, with a script that is awaited as an outcome and its `onload` as a
-- resumption. NavTree/Tree/Pages relates the two, NavTree/Tree/Select has the items that
-- `selectAndHighlight` marks, and NavTree/Tree/Arrow the clicks on arrows.
-- NavTree/Session has `navTo`, the button `nav-sync` with `storeLink`, `deleteLink` and
-- `cachedLink`, and the handler of `hashchange`, as steps on the page that is shown and the
-- browser below it. NavTree/Links has the links that `newNode` gives to the items, and the class
-- by which an address finds an item.
--
-- Outline is the outline of a page from its headings (`initPageToc`), Outline/Groups that of a
-- page with groups of members, Outline/Escape `escapeHtml`, Outline/AllMembers the link to all
-- members, and Outline/Marks `updateContentTop`.
--
-- Search/Encode is `convertToId`, Search/Results `createResults` and `SearchResults.Search`,
-- `NavNext` and `NavPrev`, Search/Keys `ProcessKeys`, `Nav`, `NavChild` and `Toggle`. Search/Box
-- is `SearchBox`: Search/Box/Run has its handlers as steps on one record, with the scripts of
-- results that are awaited in a list from which any may arrive next, and a handler that throws as
-- a result. Search/Scripts has docs/search/searchdata.js and, in its children, the scripts of
-- results, as the data that the search loads.
--
-- Directory is the table of files of docs/dynsections.js: `toggleLevel`, `toggleFolder` and
-- `updateStripes` on its rows, each with its visibility, its marks and its stripe.
-- Directory/Collapse has `toggleVisibility` and `toggleInherit` of that file, and CodeFold its
-- `codefold`, on the parts of a listing that fold.
--
-- Clipboard is docs/clipboard.js: the text that the button of a listing copies.
--
-- Bounds and fuel. `hex n` recurs on fuel `n`, which is enough since each round divides by 16.
-- `load_all` recurs on the number of scripts that may arrive; a place of `n` steps waits for at
-- most `n + 1` of them, and the theorem on it asks for no more. Every other loop is structural.
-- Numbers of pixels are whole numbers without bound, and code units are numbers, below 65536 where
-- it matters.
--
-- Parameters. What a page measures, what a results script defines, the text of a cookie's date and
-- `toLowerCase` are arguments of the definitions that use them. `docs/jquery.js` and the document
-- itself are not modelled: a definition keeps of an element what the code reads back.
--
-- Not modelled: the scrolling and the glow of anchors (`gotoAnchor`, `glowEffect`, `showRoot`) and
-- the position of the icon of the button, which change only what is seen; that a click on an item
-- with a fragment marks the item (`newNode`); and the results scripts
-- of the sections `all` and `functions`, which are some 160 KB of entries of the form of the
-- others: what they define is a parameter of Search/Scripts. A start marker of a folded part is
-- taken as plain text, as every listing has it.
pub mod Base
pub mod Clipboard
pub mod CodeFold
pub mod Cookie
pub mod Directory
pub mod NavTree
pub mod Outline
pub mod Resizable
pub mod Search

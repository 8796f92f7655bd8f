-- ===== src/Lib.antt =====
-- The core logic of the mwdb-core web client (mwdb/web/src), and the routes of its server.
--
-- Query, Query/*: components/RecentView/common/luceneLexer.ts. `lex_query` is lexQuery, a run of the
-- automaton `allowed_states` (allowedStates) over the tokens of the tokenizer, and `annotate_query`
-- is annotateQuery, whose `round` is one round of its loop. The references that the array
-- openedParentheses shares with the annotations are positions.
--
-- Suggest, Suggest/*: components/RecentView/common/useQuerySuggestions.ts. `get_current_field` reads the
-- annotations of Query; `fetch_suggestions` makes the suggestions or names the getter that it awaits;
-- Suggest/Structure has the example values of attributes, and Suggest/Live the two hooks as state
-- machines, whose events may come in any order.
--
-- Search, Search/*: commons/helpers/search.ts. Search/Tokens holds the patterns of the lexer's phrases and
-- field names, and ties what Search escapes to what Query reads.
--
-- Api, Api/*: commons/api/index.tsx. Each function is the request that it gives to axios, under its name in
-- the spelling of the other definitions; identifiers are the texts that the templates put into the path.
-- Api/Table is the list of routes of mwdb/app.py, with the methods of the classes of mwdb/resources, and
-- Api/Routes says which requests a route serves, with what the converters hash64 and int ask of a segment.
-- The bodies that the server expects, axios itself and the answers are left out.
--
-- Auth, Auth/*: commons/auth/provider.tsx. Auth/Session has the functions outside the component, and
-- Auth/Provider the state of AuthProvider, its operations and the relation `Step` of what may happen to it.
-- A closure over an old session is an argument `seen`. A later render reads the storage again. The time does not pass within one operation.
-- JSON, the decoder of the token and lodash's isEqual are parameters; what the theorems ask of them is
-- named `ReadsBack` and `IsSound`. Timers, the logout at an OAuth provider and the location that logout
-- remembers are left out.
--
-- Preview, Preview/*: commons/helpers/preview.ts, with TextEncoder and TextDecoder as parameters.
--
-- Config, Config/*: commons/config/provider.tsx. Config/Reducer has the reducer and what the three requests
-- do with their answers. A configuration is a function from its keys. The timer is left out.
--
-- Helpers, Helpers/*: commons/helpers/index.ts and commons/helpers/paginate.ts.
--
-- Rich, Rich/*: components/RichAttribute. Rich/Split, Rich/Escape, Rich/Context, Rich/Section and Rich/Query are
-- MarkedMustache.tsx and makeAttributeQuery of RichAttributeRenderer.tsx; Rich/Lambdas is
-- builtinLambdas.tsx. mustache.js, marked, encodeURIComponent and the lambdas that a context holds are
-- parameters, and so is the test for the names that every object inherits, where the code reads them.
-- The lambdas that call a renderer for part of a template, and the Markdown renderer, are left out.
--
-- Recent, Recent/*: components/RecentView. Recent/List is RecentViewList.tsx: its reducer, and the component as
-- a machine whose steps are a new query, a request for more, a reply and an error. Recent/Input is
-- QueryInput.tsx, where the editor (slate) is its one line of text, and Recent/View is RecentView.tsx, which
-- calls the functions of Search.
--
-- Ui, Ui/*: commons/ui/HighlightText.tsx.
--
-- Navigation, Navigation/*: commons/navigation, and RequiresAuth.tsx and RequiresCapability.tsx of commons/ui.
-- Navigation/Routes is the tree of AppRoutes.tsx, with the routes of plugins as arguments, and
-- Navigation/Guards what a branch of such a tree shows for the session of Auth. Which branch a location
-- leads to is react-router's choice and left open.
--
-- Show, Show/*: components/ShowObject/common/ShowObject.tsx: its reducer, with lodash's isEqual as a
-- parameter, and the page as a machine whose replies may come in any order. Show/Karton is the box of
-- KartonAnalysisBox.tsx, which asks for its list anew while more pages are being loaded.
--
-- Relations, Relations/*: components/Views/RelationsPlotView.tsx: the nodes and edges of the plot, and what an
-- answer to an expansion adds to them. The drawing is left out.
--
-- Plugins, Plugins/*: commons/plugins (loader.tsx, Extension.tsx, Extendable.tsx). Importing and calling a
-- plugin's module is a parameter, as its outcome.
--
-- Texts are lists of UTF-16 code units. The tokenizer (moo), JSON.parse, URLSearchParams and Date are
-- parameters; what the theorems ask of the tokenizer is named `Spells` and `IsCut`. Errors are data, not
-- messages. Objects are association lists in the order of insertion: names that every object inherits, and
-- the order of keys that are integers, are left out. All recursion is structural, but the loop of
-- HighlightText.tsx runs on fuel: it gets one round more than the text in lower case is long, which is
-- enough since each match takes at least one unit of it.
--
-- Not modelled: the forms for administration, profile, upload and login, the other boxes of the object page
-- and the elements of commons/ui, which render and call the client with little logic of their own; the
-- quick queries, filesize.ts, getErrorMessage.tsx and the hooks, which are left for later; and the server
-- but for its routes, which is written in another language.
mod Common
pub mod Query
pub mod Suggest
pub mod Search
pub mod Api
pub mod Preview
pub mod Auth
pub mod Config
pub mod Helpers
pub mod Rich
pub mod Recent
pub mod Ui
pub mod Navigation
pub mod Show
pub mod Relations
pub mod Plugins

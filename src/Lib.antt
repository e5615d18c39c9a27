-- ===== src/Lib.antt =====
-- Verification of build_support/cpplint.py, the lint script that the build of this repository runs
-- over its C++ sources. The script reads a file into a list of lines, takes raw strings, comments
-- and literals out of them, and runs its checks line by line over a few objects that keep state:
-- the include state, the function state, the nesting of blocks, and, for the whole run, the options
-- with the counters and the tables of suppressed errors. Every check hands its findings to one
-- function, `Error`, which decides by the suppressions, the confidence and the filters whether to
-- count and to print them.
--
-- The files, and the code that each is about:
--   Common: what the modules share. `str` is a list of code points (Common/Text), of which case,
--     white space and digits are those of ASCII; a negative index or an index out of range is
--     written out (Common/Slices); lists over the native numbers are in Common/Lists, Boolean
--     tests in Common/Tests, integers in Common/Int.
--   Regex: the part of Python's `re` that the patterns use, as a backtracking matcher that can be
--     run. `Match`, `Search` and `ReplaceAll` of the script are `match`, `find_match` and
--     `replace_all` or `remove_all`; their cache of compiled patterns has no counterpart.
--     Regex/Progress and Regex/Groups have what a match consumes and captures.
--   Report: what a check hands to its argument `error`, as a value. A check that the script writes
--     as a procedure over `error` returns the list of its reports here, in the order of the calls,
--     or a list of actions, where it also calls `ParseNolintSuppressions`.
--   Listed: what the checks of a line have in common, as predicates on those lists, and the rules
--     by which `search` proves them of a check.
--   State: `_CppLintState`, a record, whose methods are functions of it. Output is a list in the
--     state.
--   Suppress: `ParseNolintSuppressions`, `ProcessGlobalSuppresions`, `ResetNolintSuppressions` and
--     `IsErrorSuppressedByNolint`, over the two tables. Suppress/Abstract has what the tables
--     stand for, a predicate on categories and lines.
--   Emit: `_ShouldPrintError` and `Error`. `none` is the failed assertion on a filter without a
--     sign.
--   Includes: `_IncludeState`; Includes/Standard has the standard headers, Includes/Lines
--     `_ClassifyInclude` and `CheckIncludeLine`, Includes/Templates and Includes/Used
--     `CheckForIncludeWhatYouUse`.
--   Functions: `_FunctionState` and `CheckForFunctionLengths`; the level of a report is the logarithm without rounding, which is what Python computes for the two bases that the script has.
--   Expression: `FindEndOfExpressionInLine` and `CloseExpression`; Expression/Reverse has
--     `FindStartOfExpressionInLine` and `ReverseCloseExpression`. A position -1 is `none`, and so is what `CloseExpression` gives for a position behind the end of a line, where the script stops with an IndexError.
--   Cleanse: `IsCppString`, `CleanseRawStrings`, `CleanseComments` and `CleansedLines`;
--     Cleanse/Comments has `RemoveMultiLineComments` with the functions that it calls.
--   Nesting: the block classes and `NestingState`, whose stack is a list with the innermost block
--     first; Nesting/Ends has the blocks' `CheckEnd`, Nesting/Preprocessor `UpdatePreprocessor`,
--     Nesting/Template `InTemplateArgumentList`, Nesting/Update `Update`, Nesting/Completed what
--     follows from `CheckCompletedBlocks`. The methods of a block mutate it in place, and nothing
--     but the stack holds a block but the copies of the stack that the script makes with
--     `deepcopy`, so a value stands for the object.
--   Checks: checks of a file or a line that keep no state of their own.
--   Spacing: `CheckSpacing` and the checks of blanks that `CheckStyle` calls.
--   Paths: the options that the names of files depend on, with `FileInfo` in Paths/Info, the sets
--     of extensions in Paths/Extensions, the header guards in Paths/Guard, and in Paths/Modules
--     `FilesBelongToSameModule`, `_DropCommonSuffixes` and `CheckHeaderFileIncluded`. Paths/Os has
--     the functions of `os.path` for POSIX. Paths/Ancestors is about the directories above a file.
--   Style: `CheckStyle`, in Style/Lines, and the checks that it calls: width, braces, semicolons,
--     bodies and macros.
--   Language: `CheckLanguage`, in Language/Lines, and the other checks that `ProcessLine` calls.
--   Driver: `CheckForNamespaceIndentation`, `ProcessLine` and `ProcessFileData`. The objects that
--     the lines share are a record that goes from line to line, and what is done is a list of
--     effects, in order: reports, calls of `ParseNolintSuppressions`, and the two operations on
--     whole tables. `previous_stack_top` is the top of the stack that `Update` starts from. Where
--     it is compared by identity, the model goes by the height of the stack, the line of the
--     block, and whether a copy of a saved stack came in. A missing header has no line where
--     nothing is included, so it is an effect of its own.
--   Samples: the theorems at concrete inputs, and runs of the code.
--
-- Loops. A loop over a list or a text is a function by clauses. The others are functions on fuel,
-- with a bound that each loop stays within. A repetition of a pattern has the length of the text in
-- front, as each round must consume a character. `CleanseRawStrings` has the length of the line: a
-- round puts two quotes in the place of at least a letter, two quotes and two brackets.
-- `_CollapseStrings` has the length of the line and one: a round goes on behind a quote.
-- `RemoveMultiLineComments` has the number of lines and one: a round goes on behind the last line
-- of a comment. The namespaces in `Update` have the length of the line and one: a round takes a
-- keyword off the line. `InTemplateArgumentList` has the characters and line ends of the file and
-- one: a round moves on in the line or to a later line; this one returns `none` where fuel runs
-- out, and its caller reads `none` as False. `%d` has the number itself and one, which is at least
-- as many as its digits. The directories above a file are as many at most as the characters of its
-- name, and so are the parts that `PathSplitToList` takes off a path. The calls of operators that
-- `CheckOperatorSpacing` blots out have the length of the line and one, where a round blots out a
-- name, which it then no longer finds. The operands of a CHECK have the length of the expression.
--
-- What the code looks up outside of itself is an argument: `os.path.exists` and the current
-- directory (`FileSystem`), `io.open`, the extra checks, and `unicodedata` for the width of a line
-- (`Unicode`). A Python set is the list of its elements in the order of iteration. A result `none`
-- of a check is an exception, or a loop of `RepositoryName` that does not end.
--
-- Not modelled: `FormatJUnitXML`, `ProcessConfigOverrides` and `ProcessFile`, of which only the splitting into lines is; the reading of files,
-- of the configuration and of the command line, the output of the help, and the order in which the
-- files of a run are taken. Outside the script, the C++ server (src/), the demos, the benchmark
-- client (webbench/) and the other scripts of build_support/, which only start processes, are not
-- modelled.
pub mod Common
pub mod Regex
pub mod Report
pub mod State
pub mod Suppress
pub mod Driver
pub mod Emit
pub mod Listed
pub mod Includes
pub mod Functions
pub mod Expression
pub mod Cleanse
pub mod Nesting
pub mod Checks
pub mod Spacing
pub mod Paths
pub mod Style
pub mod Language
mod Samples

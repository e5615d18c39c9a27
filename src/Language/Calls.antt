-- ===== src/Language/Calls.antt =====
-- build_support/cpplint.py: `CheckPosixThreading`, `CheckVlogArguments`, `CheckInvalidIncrement`,
-- `CheckPrintf`, `CheckMakePairUsesDeduction`, `FlagCxx11Features` and `FlagCxx14Features`.
use turtle.Common.{ℕ, not, ◌&&◌, List, [], ◌∷◌, ◌++◌, if◌then◌else◌}
use turtle.Common.Text.{Text, codes, eq_text, mem_text, starts_with, is_digit}
use turtle.Common.Slices.{line_at}
use turtle.Regex.{
  Regex, char, both, many, group, word_edge, at_start, word, one_of, none_of, space, word_char,
  some_of, choice, seq, match, matches, find_match, found, captured_text,
}
use turtle.Report.{Report, report, report_if}
use turtle.Listed.{on_match, Listed, listed, none_left}
use turtle.Cleanse.{CleansedLines}

-- `(?:[-+*/=%^&|(<]\s*|>\s+)`
unfoldable unsafe_func_prefix : Regex
unfolding seq choice some_of word one_of space
unsafe_func_prefix =
    choice (seq (one_of "-+*/=%^&|(<" ∷ many space ∷ []) ∷ seq (word ">" ∷ some_of space ∷ []) ∷ [])

-- `\([^)]+\)`
unfoldable some_arguments : Regex
unfolding seq some_of word none_of
some_arguments = seq (word "(" ∷ some_of (none_of ")") ∷ word ")" ∷ [])

-- `\(\)`
unfoldable no_arguments : Regex
unfolding word
no_arguments = word "()"

-- `_THREADING_LIST`: a function, its alternative, and the pattern of a call whose result is used.
unfoldable threading_list : List (Text × Text × Regex)
unfolding word
threading_list =
    (
      codes "asctime(",
      codes "asctime_r(",
      both unsafe_func_prefix (both (word "asctime") some_arguments),
    )
    ∷ (
      codes "ctime(",
      codes "ctime_r(",
      both unsafe_func_prefix (both (word "ctime") some_arguments),
    )
    ∷ (
      codes "getgrgid(",
      codes "getgrgid_r(",
      both unsafe_func_prefix (both (word "getgrgid") some_arguments),
    )
    ∷ (
      codes "getgrnam(",
      codes "getgrnam_r(",
      both unsafe_func_prefix (both (word "getgrnam") some_arguments),
    )
    ∷ (
      codes "getlogin(",
      codes "getlogin_r(",
      both unsafe_func_prefix (both (word "getlogin") no_arguments),
    )
    ∷ (
      codes "getpwnam(",
      codes "getpwnam_r(",
      both unsafe_func_prefix (both (word "getpwnam") some_arguments),
    )
    ∷ (
      codes "getpwuid(",
      codes "getpwuid_r(",
      both unsafe_func_prefix (both (word "getpwuid") some_arguments),
    )
    ∷ (
      codes "gmtime(",
      codes "gmtime_r(",
      both unsafe_func_prefix (both (word "gmtime") some_arguments),
    )
    ∷ (
      codes "localtime(",
      codes "localtime_r(",
      both unsafe_func_prefix (both (word "localtime") some_arguments),
    )
    ∷ (codes "rand(", codes "rand_r(", both unsafe_func_prefix (both (word "rand") no_arguments))
    ∷ (
      codes "strtok(",
      codes "strtok_r(",
      both unsafe_func_prefix (both (word "strtok") some_arguments),
    )
    ∷ (
      codes "ttyname(",
      codes "ttyname_r(",
      both unsafe_func_prefix (both (word "ttyname") some_arguments),
    )
    ∷ []

unfoldable threading_reports : Text → ℕ → Text → List (Text × Text × Regex) → List Report
threading_reports f n line [] = []
threading_reports f n line ((single, safe, pattern) ∷ entries) =
    report_if (found pattern line) f n (codes "runtime/threadsafe_fn") 2 (
      codes "Consider using "
      ++ (safe
          ++ (codes "...) instead of " ++ (single ++ codes "...) for improved thread safety."))))
    ++ threading_reports f n line entries

pub check_posix_threading : Text → CleansedLines → ℕ → List Report
check_posix_threading f clean n = threading_reports f n (line_at clean.elided n) threading_list

-- `\bVLOG\((INFO|ERROR|WARNING|DFATAL|FATAL)\)`
unfoldable vlog_pattern : Regex
unfolding seq choice word
vlog_pattern = seq (
    word_edge
    ∷ word "VLOG("
    ∷ group 1
        (choice (word "INFO" ∷ word "ERROR" ∷ word "WARNING" ∷ word "DFATAL" ∷ word "FATAL" ∷ []))
    ∷ word ")"
    ∷ [])

pub check_vlog_arguments : Text → CleansedLines → ℕ → List Report
check_vlog_arguments f clean n =
    report_if (found vlog_pattern (line_at clean.elided n)) f n (codes "runtime/vlog") 5 (
      codes
        "VLOG() should be used with numeric verbosity level.  Use LOG() if you want symbolic severity levels.")

-- `^\s*\*\w+(\+\+|--);`
unfoldable invalid_increment_pattern : Regex
unfolding seq choice some_of word space word_char
invalid_increment_pattern = seq (
    at_start
    ∷ many space
    ∷ word "*"
    ∷ some_of word_char
    ∷ group 1 (choice (word "++" ∷ word "--" ∷ []))
    ∷ word ";"
    ∷ [])

pub check_invalid_increment : Text → CleansedLines → ℕ → List Report
check_invalid_increment f clean n =
    report_if (matches invalid_increment_pattern (line_at clean.elided n)) f n
      (codes "runtime/invalid_increment") 5
      (codes "Changing pointer instead of value (or unused value of operator*).")

-- `snprintf\s*\(([^,]*),\s*([0-9]*)\s*,`
unfoldable snprintf_pattern : Regex
unfolding seq word none_of space is_digit
snprintf_pattern = seq (
    word "snprintf"
    ∷ many space
    ∷ word "("
    ∷ group 1 (many (none_of ","))
    ∷ word ","
    ∷ many space
    ∷ group 2 (many (char (λ c. is_digit c)))
    ∷ many space
    ∷ word ","
    ∷ [])

-- `\bsprintf\s*\(`
unfoldable sprintf_pattern : Regex
unfolding seq word space
sprintf_pattern = seq (word_edge ∷ word "sprintf" ∷ many space ∷ word "(" ∷ [])

-- `\b(strcpy|strcat)\s*\(`
unfoldable strcpy_pattern : Regex
unfolding seq choice word space
strcpy_pattern = seq (
    word_edge
    ∷ group 1 (seq (word "strc" ∷ choice (word "py" ∷ word "at" ∷ []) ∷ []))
    ∷ many space
    ∷ word "("
    ∷ [])

unfoldable snprintf_reports : Text → ℕ → Text → List Report
snprintf_reports f n line = on_match (find_match snprintf_pattern line) (λ m.
    report_if (not (eq_text (captured_text 2 m) (codes "0"))) f n (codes "runtime/printf") 3 (
      codes "If you can, use sizeof("
      ++ (captured_text 1 m
          ++ (codes ") instead of "
              ++ (captured_text 2 m ++ codes " as the 2nd arg to snprintf.")))))

pub check_printf : Text → CleansedLines → ℕ → List Report
check_printf f clean n =
    let line = line_at clean.elided n in
    snprintf_reports f n line
    ++ (report_if (found sprintf_pattern line) f n (codes "runtime/printf") 5
          (codes "Never use sprintf. Use snprintf instead.")
        ++ on_match (find_match strcpy_pattern line) (λ m.
          report f n (codes "runtime/printf") 4
            (codes "Almost always, snprintf is better than " ++ captured_text 1 m)
          ∷ []))

-- `\bmake_pair\s*<`
unfoldable make_pair_pattern : Regex
unfolding seq word space
make_pair_pattern = seq (word_edge ∷ word "make_pair" ∷ many space ∷ word "<" ∷ [])

pub check_make_pair_uses_deduction : Text → CleansedLines → ℕ → List Report
check_make_pair_uses_deduction f clean n =
    report_if (found make_pair_pattern (line_at clean.elided n)) f n
      (codes "build/explicit_make_pair") 4
      (codes
        "For C++11-compatibility, omit template arguments from make_pair OR use pair directly OR if appropriate, construct a pair directly")

-- `\s*#\s*include\s+[<"]([^<"]+)[">]`
unfoldable include_name_pattern : Regex
unfolding seq some_of word one_of none_of space
include_name_pattern = seq (
    many space
    ∷ word "#"
    ∷ many space
    ∷ word "include"
    ∷ some_of space
    ∷ one_of "<\""
    ∷ group 1 (some_of (none_of "<\""))
    ∷ one_of "\">"
    ∷ [])

-- `\s*#`
unfoldable directive_pattern : Regex
unfolding seq word space
directive_pattern = seq (many space ∷ word "#" ∷ [])

-- `\s*#\s*define\b`
unfoldable define_pattern : Regex
unfolding seq word space
define_pattern = seq (many space ∷ word "#" ∷ many space ∷ word "define" ∷ word_edge ∷ [])

-- `\bstd::alignment_of\b`
unfoldable alignment_of_pattern : Regex
unfolding seq word
alignment_of_pattern = seq (word_edge ∷ word "std::alignment_of" ∷ word_edge ∷ [])

-- `\bstd::aligned_union\b`
unfoldable aligned_union_pattern : Regex
unfolding seq word
aligned_union_pattern = seq (word_edge ∷ word "std::aligned_union" ∷ word_edge ∷ [])

abbrev unapproved_headers : List Text
unapproved_headers =
    codes "cfenv"
    ∷ codes "condition_variable"
    ∷ codes "fenv.h"
    ∷ codes "future"
    ∷ codes "mutex"
    ∷ codes "thread"
    ∷ codes "chrono"
    ∷ codes "ratio"
    ∷ codes "regex"
    ∷ codes "system_error"
    ∷ []

unfoldable header_reports : Text → ℕ → Text → List Report
header_reports f n name =
    report_if (starts_with (codes "tr1/") name) f n (codes "build/c++tr1") 5
      (codes "C++ TR1 headers such as <" ++ (name ++ codes "> are unapproved."))
    ++ report_if (mem_text name unapproved_headers) f n (codes "build/c++11") 5
        (codes "<" ++ (name ++ codes "> is an unapproved C++11 header."))

unfoldable class_report : Text → ℕ → Text → Text → Regex → List Report
class_report f n line name pattern = report_if (found pattern line) f n (codes "build/c++11") 5 (
    codes "std::"
    ++ (name
        ++ codes
            " is an unapproved C++11 class or function.  Send c-style an example of where it would make your code more readable, and they may let you use it."))

pub flag_cxx11_features : Text → CleansedLines → ℕ → List Report
flag_cxx11_features f clean n =
    let line = line_at clean.elided n in
    on_match (match include_name_pattern line) (λ m. header_reports f n (captured_text 1 m))
    ++ (if matches directive_pattern line && not (matches define_pattern line)
        then []
        else class_report f n line (codes "alignment_of") alignment_of_pattern
          ++ class_report f n line (codes "aligned_union") aligned_union_pattern)

pub flag_cxx14_features : Text → CleansedLines → ℕ → List Report
flag_cxx14_features f clean n = on_match (match include_name_pattern (line_at clean.elided n)) (λ m.
    report_if (mem_text (captured_text 1 m) (codes "scoped_allocator" ∷ codes "shared_mutex" ∷ []))
      f n (codes "build/c++14") 5
      (codes "<" ++ (captured_text 1 m ++ codes "> is an unapproved C++14 header.")))

threading_reports-Listed :
    (f : Text) (n : ℕ) (line : Text) (entries : List (Text × Text × Regex))
    → Listed f n (threading_reports f n line entries)
unfolding threading_reports
threading_reports-Listed f n line [] = none_left
threading_reports-Listed f n line ((single, safe, pattern) ∷ entries) =
    search (listed, threading_reports-Listed f n line entries)

pub check_posix_threading-Listed :
    (f : Text) (clean : CleansedLines) (n : ℕ) → Listed f n (check_posix_threading f clean n)
unfolding check_posix_threading
check_posix_threading-Listed f clean n = search (listed, threading_reports-Listed)

pub check_vlog_arguments-Listed :
    (f : Text) (clean : CleansedLines) (n : ℕ) → Listed f n (check_vlog_arguments f clean n)
unfolding check_vlog_arguments
check_vlog_arguments-Listed f clean n = search (listed)

pub check_invalid_increment-Listed :
    (f : Text) (clean : CleansedLines) (n : ℕ) → Listed f n (check_invalid_increment f clean n)
unfolding check_invalid_increment
check_invalid_increment-Listed f clean n = search (listed)

snprintf_reports-Listed : (f : Text) (n : ℕ) (line : Text) → Listed f n (snprintf_reports f n line)
unfolding snprintf_reports
snprintf_reports-Listed f n line = search (listed) depth 10

pub check_printf-Listed :
    (f : Text) (clean : CleansedLines) (n : ℕ) → Listed f n (check_printf f clean n)
unfolding check_printf
check_printf-Listed f clean n = search (listed, snprintf_reports-Listed) depth 9

pub check_make_pair_uses_deduction-Listed :
    (f : Text) (clean : CleansedLines) (n : ℕ)
    → Listed f n (check_make_pair_uses_deduction f clean n)
unfolding check_make_pair_uses_deduction
check_make_pair_uses_deduction-Listed f clean n = search (listed)

header_reports-Listed : (f : Text) (n : ℕ) (name : Text) → Listed f n (header_reports f n name)
unfolding header_reports
header_reports-Listed f n name = search (listed) depth 15

class_report-Listed :
    (f : Text) (n : ℕ) (line : Text) (name : Text) (pattern : Regex)
    → Listed f n (class_report f n line name pattern)
unfolding class_report
class_report-Listed f n line name pattern = search (listed) depth 10

pub flag_cxx11_features-Listed :
    (f : Text) (clean : CleansedLines) (n : ℕ) → Listed f n (flag_cxx11_features f clean n)
unfolding flag_cxx11_features
flag_cxx11_features-Listed f clean n = search (listed, header_reports-Listed, class_report-Listed)

pub flag_cxx14_features-Listed :
    (f : Text) (clean : CleansedLines) (n : ℕ) → Listed f n (flag_cxx14_features f clean n)
unfolding flag_cxx14_features
flag_cxx14_features-Listed f clean n = search (listed) depth 10

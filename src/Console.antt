-- ===== src/Console.antt =====
-- console (polyfill/console.c): the text that is printed on standard error. An argument is what
-- `JS_ToCString` gives, `none` where it fails.
use cqjs.Prelude.{Option, none, some, List, [], ◌∷◌, ◌++◌, Bytes, codes, ◌≡◌, refl}
use cqjs.Script.{Reply, undefined, c_str}

-- The arguments behind the first, which is the only one that a prefix stands in front of.
later_texts : List (Option Bytes) → Bytes
later_texts [] = []
later_texts (none ∷ args) = later_texts args
later_texts (some str ∷ args) = codes " " ++ (c_str str ++ later_texts args)

prefixed : Bytes → Bytes → Bytes
prefixed [] str = str
prefixed (c ∷ prefix) str = codes "[" ++ ((c ∷ prefix) ++ (codes "] " ++ str))

first_text : Bytes → List (Option Bytes) → Bytes
unfolding later_texts prefixed
first_text prefix [] = []
first_text prefix (none ∷ args) = later_texts args
first_text prefix (some str ∷ args) = prefixed prefix (c_str str) ++ later_texts args

-- What is printed, and what is returned.
pub js_console_log_impl : List (Option Bytes) → Bytes → Bytes × Reply
unfolding first_text
js_console_log_impl args prefix = (first_text prefix args ++ codes "\n", undefined)

pub js_console_log : List (Option Bytes) → Bytes × Reply
js_console_log args = js_console_log_impl args []

pub js_console_info : List (Option Bytes) → Bytes × Reply
js_console_info args = js_console_log_impl args (codes "INFO")

pub js_console_warn : List (Option Bytes) → Bytes × Reply
js_console_warn args = js_console_log_impl args (codes "WARN")

pub js_console_error : List (Option Bytes) → Bytes × Reply
js_console_error args = js_console_log_impl args (codes "ERROR")

pub js_console_debug : List (Option Bytes) → Bytes × Reply
js_console_debug args = js_console_log_impl args (codes "DEBUG")

pub js_console_trace : List (Option Bytes) → Bytes × Reply
js_console_trace args = js_console_log_impl args (codes "TRACE")

info_test :
    js_console_info (some (codes "a") ∷ none ∷ some (codes "b") ∷ [])
    ≡ (codes "[INFO] a b\n", undefined)
unfolding js_console_info js_console_log_impl c_str
info_test = refl

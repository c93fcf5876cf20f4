-- ===== src/Tracing.antt =====
-- src/include/datazoo/oauth2/tracing.hpp: whether a trace line is written, and its text.
use datazoo_oauth.Base.{
  Bool, true, ap, map, List, false, not, ◌≡◌, refl, ◌&&◌, ◌||◌, Option, none, some, ◌++◌, ◌∷◌, [],
  Bytes, codes, eqb, if◌then◌else◌,
}

-- The value of DATAZOO_OAUTH2_TRACE.
unfoldable pub tracing_enabled_at_runtime : Option Bytes → Bool
tracing_enabled_at_runtime none = false
tracing_enabled_at_runtime (some v) = not (eqb v (codes "0")) && not (eqb v [])

-- `to_stderr` is the macro DATAZOO_OAUTH2_TRACE_TO_STDERR; `none` if nothing is written.
unfoldable pub emit_trace_line : Bool → Option Bytes → Bytes → Bytes → Bytes → Option Bytes
emit_trace_line to_stderr variable level component message =
    if to_stderr || tracing_enabled_at_runtime variable
    then some (
        codes "["
        ++ (level ++ (codes "] " ++ (component ++ (codes ": " ++ (message ++ (10 ∷ [])))))))
    else none

-- `ErplTracer::Instance().IsEnabled()`
unfoldable pub is_enabled : Option Bytes → Bool
unfolding tracing_enabled_at_runtime
is_enabled variable = tracing_enabled_at_runtime variable

-- A call of a trace macro.
pub record Line : Type 0 where
  pub level : Bytes
  pub component : Bytes
  pub message : Bytes

abbrev pub error_line : Bytes → Bytes → Line
error_line component message = record {
  level = codes "ERROR";
  component = component;
  message = message;
}

abbrev pub warn_line : Bytes → Bytes → Line
warn_line component message = record {
  level = codes "WARN";
  component = component;
  message = message;
}

abbrev pub info_line : Bytes → Bytes → Line
info_line component message = record {
  level = codes "INFO";
  component = component;
  message = message;
}

abbrev pub debug_line : Bytes → Bytes → Line
debug_line component message = record {
  level = codes "DEBUG";
  component = component;
  message = message;
}

-- What calls of the macros write to standard error.
unfoldable pub written : Bool → Option Bytes → List Line → List Bytes
written to_stderr variable [] = []
written to_stderr variable (l ∷ ls) =
    elim (emit_trace_line to_stderr variable l.level l.component l.message) [
      | none ↦ written to_stderr variable ls
      | some text ↦ text ∷ written to_stderr variable ls
    ]

-- The text of a line that is written.
abbrev pub trace_text : Line → Bytes
trace_text l =
    codes "["
    ++ (l.level ++ (codes "] " ++ (l.component ++ (codes ": " ++ (l.message ++ (10 ∷ []))))))

abbrev pub is_on : Bool → Option Bytes → Bool
is_on to_stderr variable = to_stderr || tracing_enabled_at_runtime variable

emit_trace_line-off :
    (to_stderr : Bool) (variable : Option Bytes) (l : Line)
    → is_on to_stderr variable ≡ false
    → emit_trace_line to_stderr variable l.level l.component l.message ≡ none
unfolding emit_trace_line
emit_trace_line-off to_stderr variable l off = rw off refl

emit_trace_line-on :
    (to_stderr : Bool) (variable : Option Bytes) (l : Line)
    → is_on to_stderr variable ≡ true
    → emit_trace_line to_stderr variable l.level l.component l.message ≡ some (trace_text l)
unfolding emit_trace_line
emit_trace_line-on to_stderr variable l on = rw on refl

pub written_off :
    (to_stderr : Bool) (variable : Option Bytes) (ls : List Line)
    → is_on to_stderr variable ≡ false
    → written to_stderr variable ls ≡ []
unfolding written
written_off to_stderr variable [] off = refl
written_off to_stderr variable (l ∷ ls) off =
    rw (emit_trace_line-off to_stderr variable l off, written)
      (written_off to_stderr variable ls off)

pub written_on :
    (to_stderr : Bool) (variable : Option Bytes) (ls : List Line)
    → is_on to_stderr variable ≡ true
    → written to_stderr variable ls ≡ map trace_text ls
unfolding written
written_on to_stderr variable [] on = refl
written_on to_stderr variable (l ∷ ls) on =
    rw (emit_trace_line-on to_stderr variable l on, written)
      (ap (λ texts. trace_text l ∷ texts) (written_on to_stderr variable ls on))

-- Nothing is written to standard error unless it is asked for at compile time or by the variable.
pub emit_trace_line_silent :
    (level component message : Bytes)
    → (emit_trace_line false none level component message ≡ none)
      × (emit_trace_line false (some []) level component message ≡ none)
      × (emit_trace_line false (some (codes "0")) level component message ≡ none)
unfolding emit_trace_line tracing_enabled_at_runtime eqb
emit_trace_line_silent level component message = (refl, refl, refl)

-- ===== src/Parser/Keywords.antt =====
-- engine/internal/parser/lexer.go: the token kinds and the table of keywords.
use basuyudb.Base.{ℕ, List, [], ◌∷◌, Bytes, codes, eqb, Option, none, some, if◌then◌else◌}

-- The grammar's token constants: the keywords, and the classes of the other lexemes; `punct` is a
-- character that stands for itself.
pub data Token : Type 0 where
  k_select k_from k_where k_as k_join k_inner k_left k_right k_full k_cross k_on k_using : Token
  k_and k_or k_not k_null k_is k_order k_by k_asc k_desc k_group k_having k_limit k_offset : Token
  k_insert k_into k_values k_update k_set k_delete k_create k_table k_primary k_key k_index : Token
  k_unique k_branch k_merge k_drop k_true k_false k_distinct k_alter k_truncate k_column : Token
  k_add k_if k_exists k_in k_returning k_conflict k_do k_nothing k_default k_case k_when : Token
  k_then k_else k_end k_union k_intersect k_except k_all k_references k_check k_foreign : Token
  k_with k_over k_partition k_view k_replace k_copy k_to k_stdin k_stdout k_format : Token
  k_delimiter k_header k_show k_cast k_savepoint k_release k_lateral k_sequence k_extension : Token
  k_schema k_listen k_notify k_unlisten k_enum k_type k_for k_share k_nowait k_skip : Token
  k_locked k_start k_increment k_minvalue k_maxvalue k_cycle k_cache k_owned : Token
  k_authorization k_no k_vacuum k_analyse k_reindex k_array k_interval k_temp k_temporary : Token
  k_rename k_constraint k_recursive k_explain k_verbose k_filter k_within k_materialized : Token
  k_refresh k_concurrently k_rollup k_cube k_grouping k_sets k_fetch k_first k_next k_rows : Token
  k_row k_only k_similar k_deferrable k_initially k_deferred k_immediate k_generated : Token
  k_always k_identity k_stored k_action k_cascade k_restrict k_policy k_permissive : Token
  k_restrictive k_force k_level k_security k_enable k_disable : Token
  not_deferrable ident sconst iconst fconst param json_op vector_op compare_op contain_op : Token
  typecast star add_op mul_op pow_op : Token
  punct : ℕ → Token

-- keywords; `none` is the entry -1, which is no token.
unfoldable pub keywords : List (Bytes × Option Token)
keywords =
    (codes "SELECT", some k_select)
    ∷ (codes "FROM", some k_from)
    ∷ (codes "WHERE", some k_where)
    ∷ (codes "AS", some k_as)
    ∷ (codes "JOIN", some k_join)
    ∷ (codes "INNER", some k_inner)
    ∷ (codes "LEFT", some k_left)
    ∷ (codes "RIGHT", some k_right)
    ∷ (codes "FULL", some k_full)
    ∷ (codes "CROSS", some k_cross)
    ∷ (codes "ON", some k_on)
    ∷ (codes "USING", some k_using)
    ∷ (codes "AND", some k_and)
    ∷ (codes "OR", some k_or)
    ∷ (codes "NOT", some k_not)
    ∷ (codes "NULL", some k_null)
    ∷ (codes "IS", some k_is)
    ∷ (codes "ORDER", some k_order)
    ∷ (codes "BY", some k_by)
    ∷ (codes "ASC", some k_asc)
    ∷ (codes "DESC", some k_desc)
    ∷ (codes "GROUP", some k_group)
    ∷ (codes "HAVING", some k_having)
    ∷ (codes "LIMIT", some k_limit)
    ∷ (codes "OFFSET", some k_offset)
    ∷ (codes "INSERT", some k_insert)
    ∷ (codes "INTO", some k_into)
    ∷ (codes "VALUES", some k_values)
    ∷ (codes "UPDATE", some k_update)
    ∷ (codes "SET", some k_set)
    ∷ (codes "DELETE", some k_delete)
    ∷ (codes "CREATE", some k_create)
    ∷ (codes "TABLE", some k_table)
    ∷ (codes "PRIMARY", some k_primary)
    ∷ (codes "KEY", some k_key)
    ∷ (codes "INDEX", some k_index)
    ∷ (codes "UNIQUE", some k_unique)
    ∷ (codes "BRANCH", some k_branch)
    ∷ (codes "MERGE", some k_merge)
    ∷ (codes "DROP", some k_drop)
    ∷ (codes "INTO_BRANCH", none)
    ∷ (codes "TRUE", some k_true)
    ∷ (codes "FALSE", some k_false)
    ∷ (codes "DISTINCT", some k_distinct)
    ∷ (codes "ALTER", some k_alter)
    ∷ (codes "TRUNCATE", some k_truncate)
    ∷ (codes "COLUMN", some k_column)
    ∷ (codes "ADD", some k_add)
    ∷ (codes "IF", some k_if)
    ∷ (codes "EXISTS", some k_exists)
    ∷ (codes "IN", some k_in)
    ∷ (codes "RETURNING", some k_returning)
    ∷ (codes "CONFLICT", some k_conflict)
    ∷ (codes "DO", some k_do)
    ∷ (codes "NOTHING", some k_nothing)
    ∷ (codes "DEFAULT", some k_default)
    ∷ (codes "CASE", some k_case)
    ∷ (codes "WHEN", some k_when)
    ∷ (codes "THEN", some k_then)
    ∷ (codes "ELSE", some k_else)
    ∷ (codes "END", some k_end)
    ∷ (codes "UNION", some k_union)
    ∷ (codes "INTERSECT", some k_intersect)
    ∷ (codes "EXCEPT", some k_except)
    ∷ (codes "ALL", some k_all)
    ∷ (codes "REFERENCES", some k_references)
    ∷ (codes "CHECK", some k_check)
    ∷ (codes "FOREIGN", some k_foreign)
    ∷ (codes "WITH", some k_with)
    ∷ (codes "OVER", some k_over)
    ∷ (codes "PARTITION", some k_partition)
    ∷ (codes "VIEW", some k_view)
    ∷ (codes "REPLACE", some k_replace)
    ∷ (codes "COPY", some k_copy)
    ∷ (codes "TO", some k_to)
    ∷ (codes "STDIN", some k_stdin)
    ∷ (codes "STDOUT", some k_stdout)
    ∷ (codes "FORMAT", some k_format)
    ∷ (codes "DELIMITER", some k_delimiter)
    ∷ (codes "HEADER", some k_header)
    ∷ (codes "SHOW", some k_show)
    ∷ (codes "CAST", some k_cast)
    ∷ (codes "SAVEPOINT", some k_savepoint)
    ∷ (codes "RELEASE", some k_release)
    ∷ (codes "LATERAL", some k_lateral)
    ∷ (codes "SEQUENCE", some k_sequence)
    ∷ (codes "EXTENSION", some k_extension)
    ∷ (codes "SCHEMA", some k_schema)
    ∷ (codes "LISTEN", some k_listen)
    ∷ (codes "NOTIFY", some k_notify)
    ∷ (codes "UNLISTEN", some k_unlisten)
    ∷ (codes "ENUM", some k_enum)
    ∷ (codes "TYPE", some k_type)
    ∷ (codes "FOR", some k_for)
    ∷ (codes "SHARE", some k_share)
    ∷ (codes "NOWAIT", some k_nowait)
    ∷ (codes "SKIP", some k_skip)
    ∷ (codes "LOCKED", some k_locked)
    ∷ (codes "START", some k_start)
    ∷ (codes "INCREMENT", some k_increment)
    ∷ (codes "MINVALUE", some k_minvalue)
    ∷ (codes "MAXVALUE", some k_maxvalue)
    ∷ (codes "CYCLE", some k_cycle)
    ∷ (codes "CACHE", some k_cache)
    ∷ (codes "OWNED", some k_owned)
    ∷ (codes "AUTHORIZATION", some k_authorization)
    ∷ (codes "NO", some k_no)
    ∷ (codes "VACUUM", some k_vacuum)
    ∷ (codes "ANALYSE", some k_analyse)
    ∷ (codes "ANALYZE", some k_analyse)
    ∷ (codes "REINDEX", some k_reindex)
    ∷ (codes "ARRAY", some k_array)
    ∷ (codes "INTERVAL", some k_interval)
    ∷ (codes "TEMP", some k_temp)
    ∷ (codes "TEMPORARY", some k_temporary)
    ∷ (codes "RENAME", some k_rename)
    ∷ (codes "CONSTRAINT", some k_constraint)
    ∷ (codes "RECURSIVE", some k_recursive)
    ∷ (codes "EXPLAIN", some k_explain)
    ∷ (codes "VERBOSE", some k_verbose)
    ∷ (codes "FILTER", some k_filter)
    ∷ (codes "WITHIN", some k_within)
    ∷ (codes "MATERIALIZED", some k_materialized)
    ∷ (codes "REFRESH", some k_refresh)
    ∷ (codes "CONCURRENTLY", some k_concurrently)
    ∷ (codes "ROLLUP", some k_rollup)
    ∷ (codes "CUBE", some k_cube)
    ∷ (codes "GROUPING", some k_grouping)
    ∷ (codes "SETS", some k_sets)
    ∷ (codes "FETCH", some k_fetch)
    ∷ (codes "FIRST", some k_first)
    ∷ (codes "NEXT", some k_next)
    ∷ (codes "ROWS", some k_rows)
    ∷ (codes "ROW", some k_row)
    ∷ (codes "ONLY", some k_only)
    ∷ (codes "SIMILAR", some k_similar)
    ∷ (codes "DEFERRABLE", some k_deferrable)
    ∷ (codes "INITIALLY", some k_initially)
    ∷ (codes "DEFERRED", some k_deferred)
    ∷ (codes "IMMEDIATE", some k_immediate)
    ∷ (codes "GENERATED", some k_generated)
    ∷ (codes "ALWAYS", some k_always)
    ∷ (codes "IDENTITY", some k_identity)
    ∷ (codes "STORED", some k_stored)
    ∷ (codes "ACTION", some k_action)
    ∷ (codes "CASCADE", some k_cascade)
    ∷ (codes "RESTRICT", some k_restrict)
    ∷ (codes "POLICY", some k_policy)
    ∷ (codes "PERMISSIVE", some k_permissive)
    ∷ (codes "RESTRICTIVE", some k_restrictive)
    ∷ (codes "FORCE", some k_force)
    ∷ (codes "LEVEL", some k_level)
    ∷ (codes "SECURITY", some k_security)
    ∷ (codes "ENABLE", some k_enable)
    ∷ (codes "DISABLE", some k_disable)
    ∷ []

-- `keywords[word]` with its check: a token, or none.
unfoldable pub keyword_in : List (Bytes × Option Token) → Bytes → Option Token
keyword_in [] word = none
keyword_in ((w, tok) ∷ table) word =
    let rest = keyword_in table word in if eqb w word then tok else rest

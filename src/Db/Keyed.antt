-- ===== src/Db/Keyed.antt =====
-- The statements on a table that the modules of api-server/src/api_v1/db/ share: rows are found,
-- changed and deleted by their key, and listed page by page in its order.
pub mod Laws
use amos2026ss01_zero_downti.Prelude.{
  ℕ, ◌*◌, ◌%◌, ◌^◌, Bool, true, Option, some, none, List, length, take, drop, ◌==◌, ltb,
}
use amos2026ss01_zero_downti.Prelude.Text.{Str}
use amos2026ss01_zero_downti.Db.Table.{
  record_not_found, Table, Db, ◌>>=◌, pure, raise, read, write, find_one,
}

module _ {Row Active : Type 0} {id_of : Row → ℕ} {Stores : Active → Row → Type 0}
    (t : Table Row Active id_of Stores) where
  open t use {Conn, select, select_by, insert, update, delete}

  abbrev pub has_key : ℕ → Row → Bool
  has_key i r = id_of r == i

  -- `find_by_id(id).one()`
  unfoldable pub find_by_id : ℕ → Db Conn (Option Row)
  find_by_id i = find_one t (has_key i)

  unfoldable pub add : Active → Db Conn Row
  add a = write (insert a)

  abbrev pub update_found : Str → (Row → Row) → Option Row → Db Conn Row
  update_found missing f none = raise (record_not_found missing)
  update_found missing f (some r) = write (update (id_of r) f)

  -- The row with the key is changed by `f`; `missing` is the error's text.
  unfoldable pub update_by_id : Str → ℕ → (Row → Row) → Db Conn Row
  unfolding find_by_id
  update_by_id missing i f = do found ← find_by_id i; update_found missing f found

  unfoldable pub delete_by_id : ℕ → Db Conn ℕ
  delete_by_id i = write (delete i)

  abbrev pub by_id : Row → Row → Bool
  by_id r s = ltb (id_of r) (id_of s)

  -- `num_items` and `fetch_page` of the paginator over the rows that pass the test, by their key.
  unfoldable pub paginated : (Row → Bool) → ℕ → ℕ → Db Conn (List Row × ℕ)
  paginated p page page_size = do
    counted ← read (select p)
    rows ← read (select_by by_id p)
    pure (take page_size (drop ((page * page_size) % 2 ^ 64) rows), length counted)

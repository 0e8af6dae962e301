-- ===== src/Lib.antt =====
-- A verification library for scand, a service that copies product, stock and cost data between 1C,
-- the Ozon marketplace and a PostgreSQL database, and shows its progress over server-sent events.
--
-- The program's parts and the files that model them:
--
-- - src/onec_ka2_inventory.cpp reads warehouses, stocks, costs and suppliers from a 1C:KA2 base over
--   OData. Ka2/Guids and Ka2/Encoding have the keys, filters and paths of its queries, Ka2/Chunks the
--   cutting of the keys into chunks, Ka2/Page `read_page` with its retries, Ka2/Paging `read_chunked`,
--   Ka2/Balance the query that is divided when the server finds it too long, Ka2/Workers the threads
--   of `read_chunked_parallel`, and Ka2/Rows the readers of rows and `pull`.
-- - src/sync_service.cpp with src/sync_state.cpp copies the catalogues. Sync/State has the data of
--   product.hpp, sync_checkpoint.hpp and ozon_client.hpp, the members of `SyncService` and the store of
--   checkpoints, Sync/Progress the messages and the records of runs, Sync/Ozon the loop of
--   `run_ozon_sync` and Sync/Run what is around it, Sync/Onec the old mode over HTTP, and
--   Sync/Triggers the triggers and the resuming.
-- - src/onec_url_normalizer.cpp checks the address of a 1C base that a user gives: Url.
-- - src/router.cpp finds the handler of a request: Router, with the patterns of the routes in
--   Router/Patterns.
-- - src/sse_broker.cpp sends the events: Sse.
-- - src/worker_pool.cpp and include/db_pool.hpp run the tasks and lend the connections: Pools.
-- - src/webhook_store.cpp and src/onec_raw_log.cpp keep the newest entries: Stores.
-- - src/onec_product_catalog.cpp replaces the stored catalogue by that of 1C: Catalog/Normalize has
--   `normalize_onec_product_catalog`, Catalog/Read the loops over the pages, and Catalog/Pull the two
--   pulls with the statements on the tables; Catalog/Pull/Columns says what the database is relied on to
--   store.
-- - src/onec_inventory.cpp reads stocks and prices over OData: Inventory.
-- - src/onec_catalog.cpp and src/product_catalog_pull.cpp read the catalogue over OData: Odata has the
--   addresses, rows and loops, Odata/Retry `read_page_with_retry`, and Odata/Pull
--   `pull_product_catalog`.
-- - src/onec_odata_preflight.cpp tests a connection before it is used: Preflight.
-- - src/inventory_preview.cpp checks a snapshot before it is sent: Preview.
-- - src/sync_runs_repository.cpp and src/inventory_checkpoint_repository.cpp keep the runs and the
--   checkpoints in the database: Runs.
-- - src/onec_product_mapper.cpp makes products of catalogue rows: Mapper.
-- - src/config.cpp reads the settings: Config.
--
-- The statements of SQL are functions on the lists of the rows of their tables. Where PostgreSQL, a
-- hash map or `std::sort` leaves a choice, the choice is a parameter. A failed statement spoils its
-- transaction.
--
-- Prelude has the shared lists, texts as UTF-8 bytes and maps, Env and Json the interfaces of the HTTP
-- and JSON libraries and of doubles, which stay parameters. In the same way the clients, the database,
-- the clocks and the network library are parameters, over a world that each call may change; other
-- threads speak through it, as in `stop_asked`. The synchronisation keeps a record of all that it does to
-- the outside, and its properties speak of this record. Numbers are natural numbers: the ranges of
-- `int` and `long long` are not reached by counts of pages and products.
--
-- The loops over pages run on fuel. It bounds the pages of one chunk in Ka2/Paging, the turns of
-- `run_ozon_sync` and the pages of `run_full_sync`; running out of it is a result of its own, and the
-- properties say how much is enough: more than the rows of the table, or ten turns when the network
-- is down. In Catalog/Read, Inventory and Odata the fuel is one turn more than the limit on the rows, since
-- every turn but the last one reads a row. The division of a query needs one unit for each halving.
--
-- Not modelled are log lines and pauses without an effect on the data, the handlers of
-- src/handlers.cpp, the clients of 1C and Ozon, the other repositories, and the start
-- of the service behind its settings.
pub mod Prelude
pub mod Env
pub mod Json
pub mod Ka2
pub mod Sync
pub mod Url
pub mod Pools
pub mod Router
pub mod Sse
pub mod Stores
pub mod Mapper
pub mod Catalog
pub mod Runs
pub mod Preview
pub mod Inventory
pub mod Odata
pub mod Preflight
pub mod Config

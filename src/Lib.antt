-- ===== src/Lib.antt =====
-- A verification library of the Indigo Matter plugin. The plugin shares Indigo devices with Matter
-- ecosystems through a bridge, and commissions Matter devices into Indigo.
--
-- Paths are from the repository's root; P stands for
-- indigo-matter.indigoPlugin/Contents/Server Plugin.
--
-- The parts, and the files that model them:
-- Ct (P/ct_bounds.py): which colour-temperature bounds of an export are in force. `side`,
--   `effective_ct_bounds`, `effective_ct_sources` and `wire_options` are the functions of those names.
-- Exports/Identity (P/bridge_protocol.py): `published_id_for`, `parse_published_id` and
--   `next_generation`.
-- Exports/Options and Exports/Entry (P/export_store.py): `_validate_options`,
--   `_validate_ct_bounds`, and `ExportEntry` with `to_dict` and `from_dict`.
-- Exports/Store (P/export_store.py): `ExportStore`. A method returns its result, or the exception that
--   it raises, and the store that it leaves: the entries by device id, the load error, and the prefs.
--   The lock of the class makes each method one step.
-- Learning/Adopt and Learning/Observe (P/ct_learner.py): `CTBoundsLearner`. It reads Ct for the bounds
--   in force, and writes what it learned through `upsert` of Exports/Store.
-- Commission (P/commission_jobs.py): `CommissionJobs`. Records changes and reaps jobs, Create is
--   `create_job` and `get_job`, Claim is `reconcile_node_added`, Late is `note_late_response`, Worker
--   is `_run_job` and `_fail`, Expiry is the watch of the reconcile window. A coroutine is cut at its
--   awaits: each piece takes what the awaited call gave, and leaves the phase that the coroutine then
--   waits in and the job table.
-- Replace (P/node_replace.py): `plan_replacement`, `refusal_reasons`, whose texts are left out, and
--   `rebound_props`.
-- Sync/Tombstones (P/device_sync.py): `NodeDeviceTombstones` and `_salvage_node_id`.
-- Backup (P/fabric_backup.py): `restore_backup`, and in Snapshots `create_backup`, `list_backups` and
--   `prune_backups`. Archive is the members and the zip-slip guard, Stages
--   the plan, the stops, the renames and the extractions, Restore the rollback and the whole. Backup
--   itself is the machine: the two storage directories with the names they are moved to, and the calls
--   of the daemons' controls. A `Host` says how the controls, the renames and the extractions of a restore
--   answer; a `Disk` says of a backup what the writing, the checks,
--   the rename, the removals and the listing of the pruning meet.
-- Transport (P/ws_json_client.py): `WsJsonClient`. Transport has the requests, the frames and the notes,
--   Transport/Steps the steps that can happen in any order and the histories of them, Transport/Loop
--   `_run_loop` with its backoff and its diagnostic, which its hook or another thread may re-arm. A
--   `set_state` is a step of the notes alone.
-- Push (P/export_handlers.py, P/export_bridge.py): `diff_from`, `_note_pushed` and the push of
--   `device_updated`, over the snapshot of one export and what the node holds of it. A push is noted
--   when it is scheduled and is not waited for, so each one says whether it is delivered; what was
--   dropped is made up for by the specs of the next attach.
-- Attach (P/bridge_client.py, P/export_bridge.py, bridge-node/src/reconcile.ts): `_handshake`, the opt-in
--   `_replace_all`, the refusals, the debt of an un-export in the prefs, whose record
--   may fail, and the guard of `planReconcile`. That the clear of a paid debt fails is left out: it
--   leaves a debt, and loses none.
-- Handlers (P/matter_handlers, P/mired_units.py): the registry and which devices an endpoint gets, with
--   the `is_primary_for` of each handler. Handlers/Lookup and Handlers/Lighting are about the registry,
--   Levels, Dimmer and Covering are level_control.py and window_covering.py, Mireds is mired_units.py
--   and the colour temperature of color_control.py, with the white side of `_set_color`.
-- Python: the values that json.loads gives, `dict`, `int(...)`, `bool(...)`, and results with the
--   exceptions of Python. Python/Dict has text keys, Python/Table any keys with a decidable equality,
--   Python/Round is `round` of a quotient, Python/Sorting
--   `list.sort`.
-- Prelude: shared tests on numbers and texts, integers, and lists.
--
-- Python's integers are unbounded, and so is ℤ here. Times are natural numbers of milliseconds, where
-- the code has seconds of a monotonic clock or datetimes; a comparison with a time minus a window is
-- written with the window added on the other side. A progress is in hundredths. The only fuel is that
-- of the decimal and hexadecimal printers, which is the number itself: each round divides it by the
-- base.
--
-- Parameters: the JSON codec, `repr`, the flush of the prefs, the validator that the plugin injects,
-- the clock, the uuid factory, the event loop's scheduling, and what awaited calls and
-- `create_devices` give; `realpath`, the file system, `zipfile` and the daemons' controls; the frames, the
-- order of the steps of a client, and how a connection ends; the readings of a device; what the node
-- answers where its guard does not refuse.
--
-- Not modelled: log lines; locks and threads, since each locked method is one step; texts beyond
-- ASCII in `int(str)`, `str.strip` and `str.isdigit`; a node id that is neither an int nor a text; the
-- details of floats; the timing of waits, and the sockets; a bool among reported states, which is its
-- int; the TypeScript bridge node but for that guard; writable_attributes.py, which is generated; the
-- capability props and the first states of a device, and the other handlers' conversions; the
-- menus and the pages, and the rest of the device synchronisation, which calls the Indigo host.
pub mod Prelude
pub mod Python
pub mod Ct
pub mod Exports
pub mod Learning
pub mod Commission
pub mod Replace
pub mod Sync
pub mod Backup
pub mod Transport
pub mod Push
pub mod Attach
pub mod Handlers

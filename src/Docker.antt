-- ===== src/Docker.antt =====
-- The store of restorable apps: src/docker/restorableappengine.cc, and the URIs and digests of
-- src/docker/docker.cc.
pub mod Sizes
pub mod SizeLaws
pub mod Room
pub mod RoomLaws
pub mod Uri
pub mod Find
pub mod NameLaws
pub mod UriLaws
pub mod Fetched
pub mod Stored
pub mod FetchedLaws
pub mod Containers
pub mod Prune
pub mod Spared
pub mod ListLaws
pub mod KeepLaws
pub mod PruneLaws
pub mod StoreLaws
pub mod Pull
pub mod UpdateSize
pub mod Install
pub mod RunningLaws
pub mod Stream
pub mod FileLaws
pub mod Kept
pub mod StreamLaws
pub mod Auth
pub mod AuthLaws
pub mod Blob
pub mod BlobLaws
pub mod ComposeApps
pub mod ComposeRuns
pub mod ComposeLaws
